-- ===== src/Idle.antt =====
-- Idle connections: `registerIdle`, `unregisterIdle`, `updateIdle` and `callIdles` of `EventsImp` in
-- handy/event_base.cc. An iterator of a list is a number that its node keeps; a time is that of
-- `timeMilli`, and an `idle` is not negative. A callback does not change the lists while
-- `callIdles` runs: `TcpConn::close`, which is what it is for, is a task. `Option` is for the use
-- of an iterator whose node is not there, and for a loop that does not end.
pub mod Aged
pub mod Calls
mod Tests
use mathlib.Core.Option
use handy_copy.Base.{
  Bool, List, Option, [], false, if◌then◌else◌, length, ltb, map, none, some, suc, true, zero, ℕ,
  ◌++◌, ◌+◌, ◌/◌, ◌==◌, ◌∷◌,
}

-- `cb` tells which callback it is.
pub record IdleNode : Type 0 where
  pub iter : ℕ
  pub con : ℕ
  pub updated : ℕ
  pub cb : ℕ

-- `lists` is `idleConns_`, in the order of its keys, `ticks` counts the timers of `callIdles`,
-- `next_iter` is the iterator of the next node, and `calls` has the callbacks that were called, with
-- their connections.
pub record Idles : Type 0 where
  pub lists : List (ℕ × List IdleNode)
  pub enabled : Bool
  pub ticks : ℕ
  pub next_iter : ℕ
  pub calls : List (ℕ × ℕ)

abbrev pub no_idles : Idles
no_idles = record { lists = []; enabled = false; ticks = 0; next_iter = 0; calls = [] }

-- `idleConns_[idle]` and the `push_back` on it.
unfoldable pub push_at : ℕ → IdleNode → List (ℕ × List IdleNode) → List (ℕ × List IdleNode)
push_at k n [] = (k, n ∷ []) ∷ []
push_at k n ((j, l) ∷ m) =
    let rest = push_at k n m in
    if ltb k j
    then (k, n ∷ []) ∷ (j, l) ∷ m
    else if k == j
    then (j, l ++ n ∷ []) ∷ m
    else (j, l) ∷ rest

-- `registerIdle`, which returns the key of the list and the iterator.
unfoldable pub register_idle : ℕ → ℕ → ℕ → ℕ → Idles → (ℕ × ℕ) × Idles
unfolding push_at
register_idle now idle con cb i = (
  (idle, i.next_iter),
  record i {
    lists =
        push_at idle (record { iter = i.next_iter; con = con; updated = now / 1000; cb = cb })
          i.lists;
    enabled = true;
    ticks = if i.enabled then i.ticks else suc i.ticks;
    next_iter = suc i.next_iter;
  },
)

-- `erase` of an iterator.
unfoldable pub unlink : ℕ → List IdleNode → Option (List IdleNode)
unlink i [] = none
unlink i (n ∷ l) =
    let rest = unlink i l in if n.iter == i then some l else Option.map (λ z. n ∷ z) rest

-- The node of an iterator gets a time and moves to the end.
unfoldable pub touch : ℕ → ℕ → List IdleNode → Option (List IdleNode)
touch i now [] = none
touch i now (n ∷ l) =
    let rest = touch i now l in
    if n.iter == i
    then some (l ++ record n { updated = now } ∷ [])
    else Option.map (λ z. n ∷ z) rest

-- The list `lst_` of an `IdleId` is changed.
unfoldable pub change_at :
    ℕ
    → (List IdleNode → Option (List IdleNode))
    → List (ℕ × List IdleNode)
    → Option (List (ℕ × List IdleNode))
change_at k f [] = none
change_at k f ((j, l) ∷ m) =
    let rest = change_at k f m in
    if k == j then Option.map (λ z. (j, z) ∷ m) (f l) else Option.map (λ z. (j, l) ∷ z) rest

abbrev pub with_lists : Idles → List (ℕ × List IdleNode) → Idles
with_lists i m = record i { lists = m }

unfoldable pub unregister_idle : ℕ × ℕ → Idles → Option Idles
unfolding change_at unlink
unregister_idle (k, iter) i = Option.map (with_lists i) (change_at k (unlink iter) i.lists)

unfoldable pub update_idle : ℕ → ℕ × ℕ → Idles → Option Idles
unfolding change_at touch
update_idle now (k, iter) i =
    Option.map (with_lists i) (change_at k (touch iter (now / 1000)) i.lists)

abbrev pub call_of : IdleNode → ℕ × ℕ
call_of n = (n.cb, n.con)

-- The inner loop of `callIdles`, with fuel, on a copy of a list: the calls.
unfoldable pub expire : ℕ → ℕ → ℕ → List IdleNode → Option (List (ℕ × ℕ))
expire zero now idle l = none
expire (suc fuel) now idle [] = some []
expire (suc fuel) now idle (n ∷ l) =
    let rest = expire fuel now idle (l ++ record n { updated = now } ∷ []) in
    if ltb now (n.updated + idle) then some [] else Option.map (λ z. call_of n ∷ z) rest

abbrev pub then_calls : List (ℕ × ℕ) → Option (List (ℕ × ℕ)) → Option (List (ℕ × ℕ))
then_calls cs = Option.map (λ z. cs ++ z)

-- The loop over the lists.
unfoldable pub expire_all : ℕ → List (ℕ × List IdleNode) → Option (List (ℕ × ℕ))
unfolding expire
expire_all now [] = some []
expire_all now ((k, l) ∷ m) =
    Option.bind (expire (suc (length l)) now k l) (λ cs. then_calls cs (expire_all now m))

-- `callIdles`
unfoldable pub call_idles : ℕ → Idles → Option Idles
unfolding expire_all
call_idles now i =
    Option.map (λ cs. record i { calls = i.calls ++ cs }) (expire_all (now / 1000) i.lists)

-- What happens to the idle connections of an `EventBase`.
pub data Op : Type 0 where
  register : ℕ → ℕ → ℕ → Op
  unregister update : ℕ × ℕ → Op
  tick : Op

unfoldable pub run_op : ℕ → Op → Idles → Option Idles
unfolding register_idle unregister_idle update_idle call_idles
run_op now (register idle con cb) i = some (register_idle now idle con cb i).1
run_op now (unregister id) i = unregister_idle id i
run_op now (update id) i = update_idle now id i
run_op now tick i = call_idles now i

-- Operations, each at its time.
unfoldable pub run_ops : List (ℕ × Op) → Idles → Option Idles
unfolding run_op
run_ops [] i = some i
run_ops ((now, o) ∷ os) i = Option.bind (run_op now o i) (run_ops os)
