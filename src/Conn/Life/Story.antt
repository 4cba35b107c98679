-- ===== src/Conn/Life/Story.antt =====
-- The states of which the user is told, in the order of a connection's life.
use handy_copy.Conn.Life.Modes.{Calm, Kept, leave-stays}
use handy_copy.Conn.{State}
use handy_copy.Conn.Life.{
  Call, Life, attach, bad_attach, connect, ended_state, first_reconnect, is_live, is_set, is_state,
  leave, may_connect, reconnect, with_timeout, read_called, state_called,
}
use handy_copy.Base.Int.{ℤ, ltb_ℤ, pos}
use handy_copy.Base.{
  Bool, List, Option, [], false, if_both, if_cases, none, not, refl, some, subst, sym, true, ℕ,
  ◌&&◌, ◌||◌, ◌∙◌, ◌∷◌, ◌≡◌, arith,
}

-- The last state of which the user was told is `Connected`.
abbrev pub is_up : List Call → Bool
is_up [] = false
is_up (read_called ∷ cs) = is_up cs
is_up (state_called s ∷ cs) = is_state s State.connected

-- `Connected` and `Failed` are told when the connection is not up, `Closed` when it is, and the
-- other states never.
abbrev pub May : State → Bool → Type 0
May State.connected up = up ≡ false
May State.failed up = up ≡ false
May State.closed up = up ≡ true
May State.invalid up = ⊥
May State.handshaking up = ⊥

abbrev pub InStory : List Call → Type 0
InStory [] = Unit
InStory (read_called ∷ cs) = InStory cs
InStory (state_called s ∷ cs) = May s (is_up cs) × InStory cs

-- The user, if there is a callback, knows whether the connection is up.
abbrev pub Knows : Bool → State → List Call → Type 0
Knows has s cs = InStory cs × (has ≡ true → is_up cs ≡ is_state s State.connected)

abbrev pub Told : Life → Type 0
Told l = Knows l.has_state l.state l.calls

-- And so with the intervals of a mode; and a callback is there only while the connection is live.
abbrev pub Sound : Bool → Life → Type 0
Sound mode l = Told l × Calm mode l.reconnect_interval

abbrev pub SoundIn : Bool → Option Life → Type 0
SoundIn mode none = Unit
SoundIn mode (some l) = Sound mode l

abbrev pub Aware : Bool → Life → Type 0
Aware mode l = Sound mode l × (l.has_state ≡ true → is_live l.state ≡ true)

pub Sound-Kept :
    (mode : Bool) (shut : Life → Life)
    → (mode ≡ true → (l : Life) → Sound mode l → Sound mode (shut l))
    → Kept mode (Sound mode) shut
Sound-Kept mode shut h = record {
  taken = λ l n p. p;
  asked = λ l n p. p;
  set = λ l i c p. (p.0, c);
  shuts = h;
}

pub Aware-Kept :
    (mode : Bool) (shut : Life → Life)
    → (mode ≡ true → (l : Life) → Aware mode l → Aware mode (shut l))
    → Kept mode (Aware mode) shut
Aware-Kept mode shut h = record {
  taken = λ l n p. p;
  asked = λ l n p. p;
  set = λ l i c p. ((p.0.0, c), p.1);
  shuts = h;
}

-- Telling of a state that may be told.
pub tell-Knows :
    (has : Bool) (s : State) (cs : List Call)
    → May s (is_up cs)
    → InStory cs
    → Knows has s (state_called s ∷ cs)
tell-Knows has s cs m h = ((m, h), λ e. refl)

-- The state in which a live connection ends, and `Connected`, may be told.
pub ended-May :
    (s : State) (up : Bool)
    → is_live s ≡ true
    → up ≡ is_state s State.connected
    → May (ended_state s) up
ended-May State.invalid up e u = absurd (cc e)
ended-May State.handshaking up e u = u
ended-May State.connected up e u = u
ended-May State.closed up e u = absurd (cc e)
ended-May State.failed up e u = absurd (cc e)

pub connected-May :
    (s : State) (up : Bool)
    → is_state s State.handshaking ≡ true
    → up ≡ is_state s State.connected
    → May State.connected up
connected-May State.invalid up e u = absurd (cc e)
connected-May State.handshaking up e u = u
connected-May State.connected up e u = absurd (cc e)
connected-May State.closed up e u = absurd (cc e)
connected-May State.failed up e u = absurd (cc e)

may_up : (s : State) → may_connect s ≡ true → is_state s State.connected ≡ false
may_up State.invalid e = refl
may_up State.handshaking e = refl
may_up State.connected e = absurd (cc e)
may_up State.closed e = refl
may_up State.failed e = refl

attach-SoundIn :
    (mode works : Bool) (l : Life)
    → is_state l.state State.connected ≡ false
    → Sound mode l
    → SoundIn mode (attach works l)
unfolding attach
attach-SoundIn mode works l e ((h, k), calm) =
    if_both (SoundIn mode) (bad_attach l || is_set l.channel || not works) tt
      ((h, λ t. k t ∙ e), calm)

with_timeout-SoundIn :
    (mode : Bool) (t : ℕ) (o : Option Life) → SoundIn mode o → SoundIn mode (with_timeout t o)
with_timeout-SoundIn mode t none h = tt
with_timeout-SoundIn mode t (some l) h = h

pub connect-SoundIn :
    (mode : Bool) (now : ℕ) (port : ℤ) (t : ℕ) (works : Bool) (l : Life)
    → Sound mode l
    → SoundIn mode (connect now port t works l)
unfolding connect
connect-SoundIn mode now port t works l ((h, k), calm) =
    if_cases (SoundIn mode) (may_connect l.state && works)
      (λ m.
        let l1 = record l {
          dest_port = port;
          connect_timeout = t;
          connected_time = now;
          state = State.handshaking;
        } in
        with_timeout-SoundIn mode t (attach works l1) (
          attach-SoundIn mode works l1 refl
            ((h, λ e. k e ∙ may_up l.state (ground (arith, m))), calm)))
      (λ m. tt)

pub first_reconnect-SoundIn :
    (mode : Bool) (now : ℕ) (works : Bool) (l : Life) (rs : List ℕ)
    → Sound mode l
    → SoundIn mode (first_reconnect now works l rs)
unfolding first_reconnect
first_reconnect-SoundIn mode now works l [] h = h
first_reconnect-SoundIn mode now works l (d ∷ ds) h =
    connect-SoundIn mode now l.dest_port l.connect_timeout works (record l { reconnects = ds }) h

pub leave-Sound : (mode : Bool) (now : ℕ) (l : Life) → Sound mode l → Sound mode (leave now l)
unfolding leave reconnect
leave-Sound mode now l h =
    if_both (Sound mode) (not (ltb_ℤ l.reconnect_interval (pos 0)) && not l.exited)
      {x = reconnect now l} {y = record l { has_read = false; has_state = false; channel = none }} h
      ((h.0.0, λ e. absurd (cc e)), h.1)

pub leave-Aware :
    (mode : Bool) (now : ℕ) (l : Life) → mode ≡ true → Sound mode l → Aware mode (leave now l)
leave-Aware mode now l e h =
    subst (Aware mode) (sym (leave-stays mode now l e h.1))
      (((h.0.0, λ t. absurd (cc t)), h.1), λ t. absurd (cc t))
