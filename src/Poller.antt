-- ===== src/Poller.antt =====
-- handy/poller.cc and poller.h: `PollerEpoll` and `PollerKqueue`, with `Channel` of handy/event_base.cc
-- and event_base.h, and `net::setNonBlock` of handy/net.cc. A `Channel *` is a number, and what it
-- points to is in `channels`. The system calls are the fields of `System`, on a state of the kernel.
-- `Option` is for what ends the process: `none` is a `fatal`.
pub mod Bits
pub mod Active
pub mod Rounds
pub mod Kept
pub mod Served
pub mod Flags
mod Tests
use Bits.{has_bit, set_bit, clear_bit}
use mathlib.Core.Option.{bind}
use handy_copy.Base.Int.{ℤ, pos, negsuc, ltb_ℤ, pos_part, neg_part}
use handy_copy.Base.{
  Bool, List, Option, [], false, get_elem?, if◌then◌else◌, ltb, none, not, some, suc, true, zero, ℕ,
  ◌==◌, ◌∷◌,
}

-- `kReadEvent`, `kWriteEvent`, and `POLLERR`, `O_NONBLOCK`, `EV_EOF`.
abbrev pub read_event : ℕ
read_event = 1

abbrev pub write_event : ℕ
write_event = 4

abbrev pub poll_error : ℕ
poll_error = 8

abbrev pub non_block : ℕ
non_block = 2048

abbrev pub end_of_file : ℕ
end_of_file = 32768

-- An entry of `activeEvs_`: `data.ptr` and `events`, or `udata` and `flags`.
pub record Event : Type 0 where
  pub ptr : Option ℕ
  pub events : ℕ

pub data Command : Type 0 where
  get_flags : Command
  set_flags : ℕ → Command

pub data Control : Type 0 where
  ctl_add ctl_mod : Control

-- What a wait gives: the entries it has filled in, or -1 with an `errno`.
pub data Waited : Type 0 where
  filled : List Event → Waited
  failed : ℤ → Waited

pub record System (K : Type 0) : Type 0 where
  pub fcntl : K → ℤ → Command → ℤ × K
  pub errno : K → ℤ
  pub control : K → Control → ℤ → Event → ℤ × K
  pub close : K → ℤ → K
  pub wait : K → ℕ → Waited × K

-- `PollerEpoll`: `activeEvs_` is the part of the array that was ever filled.
pub record Poller : Type 0 where
  pub last_active : ℤ
  pub active_evs : List Event
  pub live_channels : List ℕ

pub record Channel : Type 0 where
  pub fd : ℤ
  pub events : ℕ

pub data Kind : Type 0 where
  reading writing : Kind

-- What happened: a wait, a channel made or taken out, the call of `handleRead` in `Channel::close`,
-- and a call of `handleRead` or `handleWrite` in `loop_once`.
pub data Step : Type 0 where
  polled : Step
  opened removed shutting : ℕ → Step
  called : Kind → ℕ → Step

-- `log` is the record of what happened, the newest first.
pub record World (K : Type 0) : Type 0 where
  pub kernel : K
  pub poller : Poller
  pub channels : ℕ → Channel
  pub log : List Step

-- What a callback does with channels. A `close` has with it what the read callback does that
-- `Channel::close` calls.
mutual
  pub data Op : Type 0 where
    opening : ℕ → ℤ → ℕ → Op
    enable_read enable_write : ℕ → Bool → Op
    enable_read_write : ℕ → Bool → Bool → Op
    closing : ℕ → Ops → Op

  pub data Ops : Type 0 where
    stop : Ops
    next : Op → Ops → Ops

-- `net::setNonBlock`
unfoldable pub set_non_block : {K : Type 0} → System K → K → ℤ → Bool → ℤ × K
set_non_block s k fd value =
    let (flags, k1) = s.fcntl k fd get_flags in
    if ltb_ℤ flags (pos 0)
    then (s.errno k1, k1)
    else s.fcntl k1 fd (
        set_flags (
          if value
          then set_bit non_block (pos_part flags)
          else clear_bit non_block (pos_part flags)))

-- `std::set<Channel *>`: in the order of the pointers.
unfoldable pub insert : ℕ → List ℕ → List ℕ
insert c [] = c ∷ []
insert c (d ∷ l) = if ltb c d then c ∷ d ∷ l else if c == d then d ∷ l else d ∷ insert c l

unfoldable pub erase : ℕ → List ℕ → List ℕ
erase c [] = []
erase c (d ∷ l) = if c == d then l else d ∷ erase c l

-- `ch == activeEvs_[i].data.ptr`
abbrev pub is_ptr : ℕ → Option ℕ → Bool
is_ptr c none = false
is_ptr c (some d) = c == d

abbrev pub points_to : ℕ → Option Event → Bool
points_to c none = false
points_to c (some e) = is_ptr c e.ptr

-- `activeEvs_[i].data.ptr = NULL`
abbrev pub null_at : List Event → ℕ → List Event
null_at [] i = []
null_at (e ∷ evs) zero = record e { ptr = none } ∷ evs
null_at (e ∷ evs) (suc i) = e ∷ null_at evs i

-- The loop of `removeChannel`, on the entries below an index.
unfoldable pub clear_below : ℕ → ℕ → List Event → List Event
clear_below c zero evs = evs
clear_below c (suc i) evs =
    if points_to c (get_elem? evs i) then null_at evs i else clear_below c i evs

-- The entries from `lastActive_` down.
abbrev pub window : ℤ → ℕ
window (pos i) = suc i
window (negsuc i) = 0

-- `removeChannel`
unfoldable pub remove_channel : ℕ → Poller → Poller
remove_channel c p = record p {
  live_channels = erase c p.live_channels;
  active_evs = clear_below c (window p.last_active) p.active_evs;
}

-- The constructor.
unfoldable pub new : Poller
new = record { last_active = negsuc 0; active_evs = []; live_channels = [] }

abbrev pub put : ℕ → Channel → (ℕ → Channel) → ℕ → Channel
put c ch channels d = if c == d then ch else channels d

-- `Channel::readEnabled` and `Channel::writeEnabled`
unfoldable pub read_enabled : Channel → Bool
read_enabled ch = has_bit read_event ch.events

unfoldable pub write_enabled : Channel → Bool
write_enabled ch = has_bit write_event ch.events

-- `events_` in `enableRead`, in `enableWrite`, and in `enableReadWrite`.
abbrev pub with_bit : ℕ → Bool → ℕ → ℕ
with_bit w enable e = if enable then set_bit w e else clear_bit w e

unfoldable pub set_read : Bool → Channel → Channel
set_read enable ch = record ch { events = with_bit read_event enable ch.events }

unfoldable pub set_write : Bool → Channel → Channel
set_write enable ch = record ch { events = with_bit write_event enable ch.events }

unfoldable pub set_read_write : Bool → Bool → Channel → Channel
set_read_write readable writable ch = record ch {
  events = with_bit write_event writable (with_bit read_event readable ch.events);
}

abbrev pub is_zero : ℤ → Bool
is_zero (pos n) = n == 0
is_zero (negsuc n) = false

abbrev pub is_open : Channel → Bool
is_open ch = not (ltb_ℤ ch.fd (pos 0))

module _ {K : Type 0} (s : System K) where
  -- `PollerEpoll::addChannel`
  unfoldable pub add_channel : World K → ℕ → Option (World K)
  add_channel w c =
      let ch = w.channels c in
      let (r, k) = s.control w.kernel ctl_add ch.fd (record { ptr = some c; events = ch.events }) in
      if is_zero r
      then some (record w {
        kernel = k;
        poller = record w.poller { live_channels = insert c w.poller.live_channels };
        log = opened c ∷ w.log;
      })
      else none

  -- `PollerEpoll::updateChannel`
  unfoldable pub update_channel : World K → ℕ → Option (World K)
  update_channel w c =
      let ch = w.channels c in
      let (r, k) = s.control w.kernel ctl_mod ch.fd (record { ptr = some c; events = ch.events }) in
      if is_zero r then some (record w { kernel = k }) else none

  abbrev pub constructed : World K → ℕ → ℤ → ℕ → World K
  constructed w c fd events = record w {
    kernel = (set_non_block s w.kernel fd true).1;
    channels = put c (record { fd = fd; events = events }) w.channels;
  }

  -- `Channel::Channel`
  unfoldable pub new_channel : World K → ℕ → ℤ → ℕ → Option (World K)
  unfolding add_channel
  new_channel w c fd events =
      if ltb_ℤ (set_non_block s w.kernel fd true).0 (pos 0)
      then none
      else add_channel (constructed w c fd events) c

  -- `enableRead`, `enableWrite` and `enableReadWrite`, each with its change of `events_`.
  unfoldable pub enable : (Channel → Channel) → World K → ℕ → Option (World K)
  unfolding update_channel
  enable f w c = update_channel (record w { channels = put c (f (w.channels c)) w.channels }) c

  -- `Channel::close` of an open channel, up to the call of `handleRead`.
  unfoldable pub shut : World K → ℕ → World K
  unfolding remove_channel
  shut w c = record {
    kernel = s.close w.kernel (w.channels c).fd;
    poller = remove_channel c w.poller;
    channels = put c (record (w.channels c) { fd = negsuc 0 }) w.channels;
    log = shutting c ∷ removed c ∷ w.log;
  }

  unfoldable mutual
    unfolding new_channel enable shut set_read set_write set_read_write

    pub run_op : Op → World K → Option (World K)
    run_op (opening c fd events) w = new_channel w c fd events
    run_op (enable_read c b) w = enable (set_read b) w c
    run_op (enable_write c b) w = enable (set_write b) w c
    run_op (enable_read_write c a b) w = enable (set_read_write a b) w c
    run_op (closing c ops) w = elim (is_open (w.channels c)) [
      | true ↦ run_ops ops (shut w c)
      | false ↦ some w
    ]

    pub run_ops : Ops → World K → Option (World K)
    run_ops stop w = some w
    run_ops (next o ops) w = bind (run_op o w) (run_ops ops)
