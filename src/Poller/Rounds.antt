-- ===== src/Poller/Rounds.antt =====
-- `loop_once`: a wait, and the calls of the handlers of the channels that it gave.
use handy_copy.Poller.{
  Kind, System, World, Ops, Waited, Event, run_ops, read_event, write_event, poll_error,
  end_of_file, read_enabled, write_enabled, called, filled, polled, failed, Channel, reading,
  writing,
}
use handy_copy.Poller.Bits.{has_bit}
use mathlib.Core.Option.{bind}
use handy_copy.Base.Int.{ℤ, pos, negsuc}
use handy_copy.Base.{
  Bool, List, Option, drop, false, get_elem?, if◌then◌else◌, length, none, not, some, suc, zero, ℕ,
  ◌&&◌, ◌++◌, ◌==◌, ◌||◌, ◌∷◌,
}

-- What `PollerEpoll::loop_once` calls for `events`; `none` is the `fatal`.
unfoldable pub epoll_choice : ℕ → Option Kind
unfolding has_bit
epoll_choice events =
    if has_bit read_event events || has_bit poll_error events
    then some reading
    else if has_bit write_event events
    then some writing
    else none

-- What `PollerKqueue::loop_once` calls for `flags` of a channel.
unfoldable pub kqueue_choice : Channel → ℕ → Option Kind
unfolding has_bit read_enabled write_enabled
kqueue_choice ch flags =
    if not (has_bit end_of_file flags) && write_enabled ch
    then some writing
    else if has_bit end_of_file flags || read_enabled ch
    then some reading
    else none

-- The entry of an index, if its pointer is not NULL.
abbrev pub with_events : ℕ → Option ℕ → Option (ℕ × ℕ)
with_events events none = none
with_events events (some c) = some (c, events)

abbrev pub entry : Option Event → Option (ℕ × ℕ)
entry none = none
entry (some e) = with_events e.events e.ptr

-- `errno == EINTR`
abbrev pub is_interrupted : ℤ → Bool
is_interrupted (pos n) = n == 4
is_interrupted (negsuc n) = false

module _ {K : Type 0} where
  abbrev pub at_index : ℤ → World K → World K
  at_index i w = record w { poller = record w.poller { last_active = i } }

  -- The entries that the wait fills in.
  abbrev pub filled_in : List Event → World K → World K
  filled_in evs w = record w {
    poller = record w.poller { active_evs = evs ++ drop (length evs) w.poller.active_evs };
    log = polled ∷ w.log;
  }

-- A handler is what the callback of a channel does, and `choose` picks it.
module _ {K : Type 0} (s : System K) (choose : World K → ℕ → ℕ → Option Kind)
    (handle : Kind → ℕ → World K → Ops) where
  unfoldable pub call : Option Kind → ℕ → World K → Option (World K)
  unfolding run_ops
  call none c w = none
  call (some kind) c w = run_ops s (handle kind c w) (record w { log = called kind c ∷ w.log })

  -- `if (ch)`
  unfoldable pub serve : Option (ℕ × ℕ) → World K → Option (World K)
  unfolding call
  serve none w = some w
  serve (some (c, events)) w = call (choose w c events) c w

  -- The loop of `loop_once`, with `lastActive_` as given.
  unfoldable pub dispatch : ℕ → World K → Option (World K)
  unfolding serve
  dispatch zero w = some (at_index (negsuc 0) w)
  dispatch (suc i) w =
      bind (serve (entry (get_elem? w.poller.active_evs i)) (at_index (pos i) w)) (dispatch i)

  unfoldable pub after_wait : Waited → World K → Option (World K)
  unfolding dispatch
  after_wait (filled evs) w = dispatch (length evs) (filled_in evs w)
  after_wait (failed e) w = if is_interrupted e then some (at_index (negsuc 1) w) else none

  abbrev pub polled_world : World K → ℕ → World K
  polled_world w milli = record w { kernel = (s.wait w.kernel milli).1 }

  -- `loop_once`
  unfoldable pub loop_once : World K → ℕ → Option (World K)
  unfolding after_wait
  loop_once w milli = after_wait (s.wait w.kernel milli).0 (polled_world w milli)
