-- ===== src/Threads/Queue.antt =====
-- `SafeQueue<T>`: the parts of its methods that run with the mutex held.
use handy_copy.Base.{
  Bool, List, Option, [], arith, false, if◌then◌else◌, leb, length, length-append, none, not, some,
  true, ℕ, ◌&&◌, ◌++◌, ◌<◌, ◌==◌, ◌||◌, ◌↔◌, ◌∷◌, ◌≡◌, ◌≢◌, ◌≤◌, ◌⊎◌,
}

-- `items_`, `capacity_` and `exit_`. A capacity of 0 is no limit.
pub record Queue {ℓ} (A : Type ℓ) : Type ℓ where
  pub items : List A
  pub capacity : ℕ
  pub exited : Bool

module _ {ℓ} {A : Type ℓ} where
  -- `push`: whether the item was taken.
  unfoldable pub push : Queue A → A → Bool × Queue A
  push q v =
      if q.exited || (not (q.capacity == 0) && leb q.capacity (length q.items))
      then (false, q)
      else (true, record q { items = q.items ++ v ∷ [] })

  -- The condition on which `wait_ready` goes on: `exit_ || !items_.empty()`.
  unfoldable pub ready : Queue A → Bool
  ready q = q.exited || not (length q.items == 0)

  -- `pop_wait` behind `wait_ready`: `none` where it returns false.
  unfoldable pub pop : Queue A → Option A × Queue A
  pop q = elim q.items [ [] ↦ (none, q) | v ∷ rest ↦ (some v, record q { items = rest }) ]

  -- `exit`, before it takes the mutex for `notify_all`
  unfoldable pub exit : Queue A → Queue A
  exit q = record q { exited = true }

  abbrev pub size : Queue A → ℕ
  size q = length q.items

-- No queue with a capacity holds more.
abbrev pub Bounded {ℓ} : {A : Type ℓ} → Queue A → Type 0
Bounded q = q.capacity ≢ 0 → length q.items ≤ q.capacity

module _ {ℓ} {A : Type ℓ} where
  -- `push` takes the item exactly when the queue runs and has room, and then puts it last; a
  -- refused item changes nothing.
  pub push_lem :
      (q : Queue A) (v : A)
      → let (taken, q') = push q v in
        ((taken ≡ true) ↔ ((q.exited ≡ false) × ((q.capacity ≡ 0) ⊎ (length q.items < q.capacity))))
        × (q'.items ≡ (if taken then q.items ++ v ∷ [] else q.items))
        × (q'.exited ≡ q.exited)
        × (q'.capacity ≡ q.capacity)
  unfolding push
  push_lem q v = ground arith

  pub push-Bounded : (q : Queue A) (v : A) → Bounded q → Bounded (push q v).1
  unfolding push
  push-Bounded q v h = ground (arith, length-append q.items (v ∷ []))
