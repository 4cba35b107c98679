-- ===== src/Conn/Life/Fits.antt =====
-- What goes with a state: the channel and the timers.
use handy_copy.Conn.{State}
use handy_copy.Conn.Life.{ended_state, is_live, is_set, is_state, may_connect}
use handy_copy.Base.Int.{ℤ, pos, ltb_ℤ}
use handy_copy.Base.{
  Bool, List, Option, [], ap, arith, false, length, none, not, refl, some, subst, sym, true, ℕ,
  ◌&&◌, ◌++◌, ◌∷◌, ◌≡◌, ◌≤◌, nil_of_length, ◌||◌,
}

-- A connection that is live has an open channel and no timer of `reconnect`; one that has ended
-- has no channel, at most one such timer, and no timer of `connect`.
abbrev pub Fits : State → Option Bool → List ℕ → Bool → Type 0
Fits State.invalid c rs t = ⊥
Fits State.handshaking c rs t = (c ≡ some true) × (rs ≡ [])
Fits State.connected c rs t = (c ≡ some true) × (rs ≡ [])
Fits State.closed c rs t = (c ≡ none) × (length rs ≤ 1) × (t ≡ false)
Fits State.failed c rs t = (c ≡ none) × (length rs ≤ 1) × (t ≡ false)

-- The port is that of a client.
abbrev pub IsClient : ℤ → Type 0
IsClient p = ltb_ℤ p (pos 1) ≡ false

abbrev pub IsDown : State → Type 0
IsDown State.invalid = ⊥
IsDown State.handshaking = ⊥
IsDown State.connected = ⊥
IsDown State.closed = Unit
IsDown State.failed = Unit

pub ended-IsDown : (s : State) → IsDown (ended_state s)
ended-IsDown State.invalid = tt
ended-IsDown State.handshaking = tt
ended-IsDown State.connected = tt
ended-IsDown State.closed = tt
ended-IsDown State.failed = tt

pub IsDown-live : (s : State) → IsDown s → is_live s ≡ false
IsDown-live State.invalid d = absurd d
IsDown-live State.handshaking d = absurd d
IsDown-live State.connected d = absurd d
IsDown-live State.closed d = refl
IsDown-live State.failed d = refl

pub IsDown-Fits :
    (s : State) (rs : List ℕ) (t : Bool) → IsDown s → length rs ≤ 1 → t ≡ false → Fits s none rs t
IsDown-Fits State.invalid rs t d h e = absurd d
IsDown-Fits State.handshaking rs t d h e = absurd d
IsDown-Fits State.connected rs t d h e = absurd d
IsDown-Fits State.closed rs t d h e = (refl, h, e)
IsDown-Fits State.failed rs t d h e = (refl, h, e)

pub one_timer : (rs : List ℕ) (d : ℕ) → rs ≡ [] → length (rs ++ d ∷ []) ≤ 1
one_timer rs d e = subst (λ z. length (z ++ d ∷ []) ≤ 1) (sym e) (omega arith)

pub no_timer : (rs : List ℕ) → rs ≡ [] → length rs ≤ 1
no_timer rs e = subst (λ z. length z ≤ 1) (sym e) (omega arith)

pub connected_live : (s : State) → is_state s State.connected ≡ true → is_live s ≡ true
connected_live State.invalid e = absurd (cc e)
connected_live State.handshaking e = refl
connected_live State.connected e = refl
connected_live State.closed e = absurd (cc e)
connected_live State.failed e = absurd (cc e)

pub handshaking_live : (s : State) → is_state s State.handshaking ≡ true → is_live s ≡ true
handshaking_live State.invalid e = absurd (cc e)
handshaking_live State.handshaking e = refl
handshaking_live State.connected e = refl
handshaking_live State.closed e = absurd (cc e)
handshaking_live State.failed e = absurd (cc e)

pub live-Fits :
    (s : State) (c : Option Bool) (rs : List ℕ) (t : Bool)
    → is_live s ≡ true
    → Fits s c rs t
    → (c ≡ some true) × (rs ≡ [])
live-Fits State.invalid c rs t e f = absurd f
live-Fits State.handshaking c rs t e f = f
live-Fits State.connected c rs t e f = f
live-Fits State.closed c rs t e f = absurd (cc e)
live-Fits State.failed c rs t e f = absurd (cc e)

pub handshaking-Fits :
    (s : State) (c : Option Bool) (rs : List ℕ) (t : Bool)
    → is_state s State.handshaking ≡ true
    → Fits s c rs t
    → (c ≡ some true) × (rs ≡ [])
handshaking-Fits s c rs t e f = live-Fits s c rs t (handshaking_live s e) f

pub set_live :
    (s : State) (c : Option Bool) (rs : List ℕ) (t : Bool)
    → is_set c ≡ true
    → Fits s c rs t
    → is_live s ≡ true
set_live State.invalid c rs t e f = absurd f
set_live State.handshaking c rs t e f = refl
set_live State.connected c rs t e f = refl
set_live State.closed c rs t e f = absurd (cc (e, f.0))
set_live State.failed c rs t e f = absurd (cc (e, f.0))

pub good_attach :
    (a b s w : Bool)
    → a ≡ false
    → s ≡ false
    → w ≡ true
    → (a && true || not b && false || s || not w) ≡ false
good_attach a b s w h k e = ground arith

one_left : (rs ds : List ℕ) (d : ℕ) → rs ≡ d ∷ ds → length rs ≤ 1 → ds ≡ []
one_left rs ds d e h = nil_of_length ds (omega (arith, h, ap length e))

pub down-Fits :
    (s : State) (c : Option Bool) (rs : List ℕ) (t : Bool) (d : ℕ) (ds : List ℕ)
    → rs ≡ d ∷ ds
    → Fits s c rs t
    → (may_connect s ≡ true) × (c ≡ none) × (ds ≡ [])
down-Fits State.invalid c rs t d ds e f = absurd f
down-Fits State.handshaking c rs t d ds e f = absurd (cc (e, f.1))
down-Fits State.connected c rs t d ds e f = absurd (cc (e, f.1))
down-Fits State.closed c rs t d ds e f = (refl, f.0, one_left rs ds d e f.1)
down-Fits State.failed c rs t d ds e f = (refl, f.0, one_left rs ds d e f.1)

pub Fits-no_timeout :
    (s : State) (c : Option Bool) (rs : List ℕ) (t : Bool) → Fits s c rs t → Fits s c rs false
Fits-no_timeout State.invalid c rs t f = f
Fits-no_timeout State.handshaking c rs t f = f
Fits-no_timeout State.connected c rs t f = f
Fits-no_timeout State.closed c rs t f = (f.0, f.1, refl)
Fits-no_timeout State.failed c rs t f = (f.0, f.1, refl)
