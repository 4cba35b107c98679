-- ===== src/Poller/Tests.antt =====
-- Rounds of a poller.
use handy_copy.Poller.{
  Event, Kind, Ops, System, World, Step, closing, next, called, filled, shutting, removed, writing,
  reading, clear_below, Channel,
}
use mathlib.Core.Option.{bind}
use handy_copy.Poller.Active.{at, Once}
use handy_copy.Poller.Kept.{FreshCalls, touched}
use handy_copy.Poller.Rounds.{loop_once, epoll_choice, kqueue_choice}
use handy_copy.Poller.Served.{loop_once_serves}
use handy_copy.Base.Int.{pos, negsuc}
use handy_copy.Base.{List, Option, [], arith, none, refl, some, suc, true, zero, ℕ, ◌+◌, ◌∷◌, ◌≡◌}

-- Two channels that can be read.
abbrev two_ready : List Event
two_ready = record { ptr = some 1; events = 1 } ∷ record { ptr = some 2; events = 1 } ∷ []

-- One channel that has two entries, as with `kevent`.
abbrev one_twice : List Event
one_twice = record { ptr = some 1; events = 0 } ∷ record { ptr = some 1; events = 0 } ∷ []

abbrev system_giving : List Event → System Unit
system_giving evs = record {
  fcntl = λ k fd c. (pos 0, k);
  errno = λ k. pos 0;
  control = λ k c fd e. (pos 0, k);
  close = λ k fd. k;
  wait = λ k milli. (filled evs, k);
}

abbrev two_channels : World Unit
two_channels = record {
  kernel = tt;
  poller = record { last_active = negsuc 0; active_evs = []; live_channels = 1 ∷ 2 ∷ [] };
  channels = λ c. record { fd = pos (c + 3); events = 5 };
  log = [];
}

-- The callback of the second channel closes the first one; that of the first closes itself.
abbrev closes_first : Kind → ℕ → World Unit → Ops
closes_first kind c w = next (closing 1 Ops.stop) Ops.stop

abbrev by_events : World Unit → ℕ → ℕ → Option Kind
by_events w c events = epoll_choice events

abbrev by_flags : World Unit → ℕ → ℕ → Option Kind
by_flags w c flags = kqueue_choice (w.channels c) flags

abbrev world_of : Option (World Unit) → World Unit
world_of none = two_channels
world_of (some w) = w

abbrev after_round : World Unit
after_round = world_of (loop_once (system_giving two_ready) by_events closes_first two_channels 10)

first_not_called : after_round.log ≡ shutting 1 ∷ removed 1 ∷ called reading 2 ∷ Step.polled ∷ []
unfolding loop_once epoll_choice bind clear_below
first_not_called = refl

-- With two entries for one channel, the loop calls a channel that its callback has closed.
closed_is_called :
    (world_of (loop_once (system_giving one_twice) by_flags closes_first two_channels 10)).log
    ≡ called writing 1 ∷ shutting 1 ∷ removed 1 ∷ called writing 1 ∷ Step.polled ∷ []
unfolding loop_once kqueue_choice bind clear_below
closed_is_called = refl

two_ready-Once : Once 2 two_ready
two_ready-Once c zero zero li lj hi hj = refl
two_ready-Once c zero (suc zero) li lj hi hj = ground arith
two_ready-Once c (suc zero) zero li lj hi hj = ground arith
two_ready-Once c (suc zero) (suc zero) li lj hi hj = refl
two_ready-Once c (suc (suc i)) j li lj hi hj = absurd (omega arith)
two_ready-Once c i (suc (suc j)) li lj hi hj = absurd (omega arith)

loop_once_serves_example :
    let w' =
      world_of (loop_once (system_giving two_ready) by_events closes_first two_channels 10) in
    FreshCalls w'.log × ((c j : ℕ) → at c two_ready j ≡ true → touched c w'.log ≡ true)
unfolding loop_once epoll_choice bind clear_below
loop_once_serves_example =
    loop_once_serves (system_giving two_ready) by_events closes_first two_channels after_round 10
      two_ready refl two_ready-Once tt refl

-- A channel that waits for writing.
abbrev writable : Channel
writable = record { fd = pos 3; events = 4 }
