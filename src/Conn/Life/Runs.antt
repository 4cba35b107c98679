-- ===== src/Conn/Life/Runs.antt =====
-- A client's connection from `connect` on: what may happen to it, and for which ports it starts.
use handy_copy.Conn.Life.Story.{InStory}
use handy_copy.Conn.Life.{
  Call, Event, Life, Request, connect, new, run, short_of, attach, ℤ, ltb_ℤ, with_timeout, pos,
}
use handy_copy.Base.{
  Bool, List, Option, [], false, ltb, none, refl, some, true, ℕ, ◌&&◌, ◌-◌, ◌^◌, ◌∷◌, ◌≡◌, ◌≤◌,
  arith, if◌then◌else◌, not, ◌||◌, ◌∙◌, if_cases, ◌%◌, ap,
}

-- What happens, from a connection that is there.
unfoldable pub run_all : (Call → Life → List Request) → List Event → Option Life → Option Life
run_all user es none = none
run_all user [] (some l) = some l
run_all user (e ∷ es) (some l) = run_all user es (run user e l)

-- A new connection that is connected at a time, and what happens then.
unfoldable pub lived :
    (Call → Life → List Request) → ℕ → ℤ → ℕ → Bool → Bool → List Event → Option Life
unfolding run_all
lived user now port timeout has_read has_state es =
    run_all user es (connect now port timeout true (new now has_read has_state))

-- The connection is there, and the user was told a story.
abbrev pub Tells : Option Life → Type 0
Tells none = ⊥
Tells (some l) = InStory l.calls

abbrev pub is_there : Option Life → Bool
is_there none = false
is_there (some l) = true

if_there :
    (b : Bool) (t : ℕ) (l : Life) → is_there (with_timeout t (if b then none else some l)) ≡ not b
if_there true t l = refl
if_there false t l = refl

-- The tests of `attach` and `connect` for a new connection.
not_bad : (a b w : Bool) → (w && not (a && true || not b && false || false || not w)) ≡ (w && not a)
not_bad a b w = ground arith

client_port :
    (port : ℕ)
    → port ≤ 2 ^ 16 - 1
    → not (ltb_ℤ (short_of port) (pos 1)) ≡ (ltb 0 port && ltb port (2 ^ 15))
unfolding short_of
client_port port h =
    let small : port % 2 ^ 16 ≡ port = omega (arith, h) in
    if_cases (λ z. not (ltb_ℤ z (pos 1)) ≡ (ltb 0 port && ltb port (2 ^ 15)))
      (ltb (port % 2 ^ 16) (2 ^ 15)) (λ e. ground arith) (λ e. ground arith)

connect-tests :
    (t : ℕ) (w b : Bool) (l : Life)
    → is_there (if w then with_timeout t (if b then none else some l) else none) ≡ (w && not b)
connect-tests t false b l = refl
connect-tests t true b l = if_there b t l

-- `connect` of a new connection with a port below 2 ^ 16, which is passed as a `short`, is not
-- fatal just when the port is from 1 to 32767 and the calls of the system work.
pub connect-short_of :
    (now port timeout : ℕ) (works has_read has_state : Bool)
    → port ≤ 2 ^ 16 - 1
    → is_there (connect now (short_of port) timeout works (new now has_read has_state))
      ≡ (works && (ltb 0 port && ltb port (2 ^ 15)))
unfolding connect attach new
connect-short_of now port timeout works r s h =
    connect-tests timeout works _ _ ∙ not_bad _ _ works ∙ ap (λ z. works && z) (client_port port h)
