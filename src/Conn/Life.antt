-- ===== src/Conn/Life.antt =====
-- The life of a `TcpConn`: `attach`, `connect`, `close`, `closeNow`, `cleanup`, `reconnect` and
-- `handleHandshake`, and what ends `handleRead` and `Channel::close` bring about. The bytes of `input_`
-- are only counted. A callback can consume input, call `setReconnectInterval` and `close`, and close
-- the channel at once, as `closeNow` does, and the callback of `onMsg` for bytes that it cannot decode.
-- The `cleanup` with which `EventsImp::loop` ends is not an event. `Option` is for what ends the process:
-- `none` is a `fatal` or the use of a `channel_` that is NULL.
pub mod Fits
pub mod Modes
pub mod Valid
pub mod Steps
pub mod Story
pub mod Telling
pub mod Runs
mod Tests
use handy_copy.Conn.{State}
use handy_copy.Base.Int.{ℤ, pos, negsuc, ltb_ℤ, ◌-ℤ◌, pos_part}
use handy_copy.Base.{
  Bool, List, Option, [], false, if◌then◌else◌, ltb, none, not, some, suc, true, ℕ, ◌%◌, ◌&&◌, ◌++◌,
  ◌-◌, ◌==◌, ◌^◌, ◌||◌, ◌∷◌, ◌+◌, zero,
}

-- A call of `readcb_`, or of `statecb_` in a state.
pub data Call : Type 0 where
  read_called : Call
  state_called : State → Call

-- What a callback does with the connection.
pub data Request : Type 0 where
  take_input : ℕ → Request
  ask_close close_now : Request
  set_reconnect : ℤ → Request

-- `channel` is `channel_`: not NULL, and whether its `fd()` is open. `timeout` says that the timer
-- of `timeoutId_` is set, `reconnects` holds the delays of the timers of `reconnect`, `closings`
-- counts the tasks of `close`, and `calls` has the calls of the callbacks, the newest first.
pub record Life : Type 0 where
  pub state : State
  pub channel : Option Bool
  pub input : ℕ
  pub has_read : Bool
  pub has_state : Bool
  pub dest_port : ℤ
  pub connect_timeout : ℕ
  pub reconnect_interval : ℤ
  pub connected_time : ℕ
  pub timeout : Bool
  pub reconnects : List ℕ
  pub closings : ℕ
  pub exited : Bool
  pub calls : List Call

-- `TcpConn::TcpConn`, at a time, with the callbacks that are set behind it.
unfoldable pub new : ℕ → Bool → Bool → Life
new now has_read has_state = record {
  state = State.invalid;
  channel = none;
  input = 0;
  has_read = has_read;
  has_state = has_state;
  dest_port = negsuc 0;
  connect_timeout = 0;
  reconnect_interval = negsuc 0;
  connected_time = now;
  timeout = false;
  reconnects = [];
  closings = 0;
  exited = false;
  calls = [];
}

abbrev pub is_state : State → State → Bool
is_state State.invalid State.invalid = true
is_state State.handshaking State.handshaking = true
is_state State.connected State.connected = true
is_state State.closed State.closed = true
is_state State.failed State.failed = true
is_state _ _ = false

abbrev pub is_set : Option Bool → Bool
is_set none = false
is_set (some b) = true

-- `close`: a task for the loop.
unfoldable pub close : Life → Life
close l = if is_set l.channel then record l { closings = suc l.closings } else l

-- What a callback does; `shut` is what closing the channel at once does.
unfoldable pub answer : (Life → Life) → List Request → Life → Life
unfolding close
answer shut [] l = l
answer shut (take_input n ∷ rs) l = answer shut rs (record l { input = l.input - n })
answer shut (ask_close ∷ rs) l = answer shut rs (close l)
answer shut (close_now ∷ rs) l = answer shut rs (shut l)
answer shut (set_reconnect i ∷ rs) l = answer shut rs (record l { reconnect_interval = i })

-- The port that a `short` holds.
unfoldable pub short_of : ℕ → ℤ
short_of port = let p = port % 2 ^ 16 in if ltb p (2 ^ 15) then pos p else negsuc (2 ^ 16 - p - 1)

-- The test of `attach`.
abbrev pub bad_attach : Life → Bool
bad_attach l =
    (ltb_ℤ l.dest_port (pos 1) && not (is_state l.state State.invalid))
    || (not (ltb_ℤ l.dest_port (pos 0)) && not (is_state l.state State.handshaking))

-- `attach`, with a `channel_` that is NULL; `works` says that `setNonBlock` of the channel does.
unfoldable pub attach : Bool → Life → Option Life
attach works l =
    if bad_attach l || is_set l.channel || not works
    then none
    else some (record l { state = State.handshaking; channel = some true })

abbrev pub may_connect : State → Bool
may_connect s = is_state s State.invalid || is_state s State.closed || is_state s State.failed

abbrev pub with_timeout : ℕ → Option Life → Option Life
with_timeout t none = none
with_timeout t (some l) = some (record l { timeout = not (t == 0) && not l.exited || l.timeout })

-- `connect`; `works` says that `socket`, `addFdFlag` and the `setNonBlock` of the channel do, which are
-- fatal otherwise. The other calls of the system have no effect on these parts.
unfoldable pub connect : ℕ → ℤ → ℕ → Bool → Life → Option Life
unfolding attach
connect now port timeout works l =
    if may_connect l.state && works
    then with_timeout timeout (
        attach works (record l {
          dest_port = port;
          connect_timeout = timeout;
          connected_time = now;
          state = State.handshaking;
        }))
    else none

-- The delay that `reconnect` sets.
unfoldable pub reconnect_delay : ℕ → Life → ℕ
reconnect_delay now l = pos_part (l.reconnect_interval -ℤ (pos now -ℤ pos l.connected_time))

unfoldable pub reconnect : ℕ → Life → Life
unfolding reconnect_delay
reconnect now l = record l {
  reconnects = l.reconnects ++ reconnect_delay now l ∷ [];
  channel = none;
}

-- The timer of `reconnect`, of which the first is due.
unfoldable pub first_reconnect : ℕ → Bool → Life → List ℕ → Option Life
unfolding connect
first_reconnect now works l [] = some l
first_reconnect now works l (d ∷ ds) =
    connect now l.dest_port l.connect_timeout works (record l { reconnects = ds })

unfoldable pub reconnect_task : ℕ → Bool → Life → Option Life
unfolding first_reconnect
reconnect_task now works l = first_reconnect now works l l.reconnects

-- A result of `readImp`: a count, of which 0 is the end, EINTR, EAGAIN, or another error.
pub data Arrival : Type 0 where
  got : ℕ → Arrival
  interrupted again read_error : Arrival

-- The poller calls `handleRead` or `handleWrite`, a task or a timer is due, `close` is called, or
-- the loop is told to end. `poll` of `handleHandshake` says whether the socket is writable.
pub data Event : Type 0 where
  readable : ℕ → Bool → List Arrival → Event
  can_write : ℕ → Bool → Event
  close_due timeout_due : ℕ → Event
  reconnect_due : ℕ → Bool → Event
  closes exits : Event

abbrev pub ended_state : State → State
ended_state State.handshaking = State.failed
ended_state _ = State.closed

abbrev pub is_live : State → Bool
is_live s = is_state s State.handshaking || is_state s State.connected

abbrev pub close_fd : Life → Life
close_fd l = record l { channel = some false }

-- The callbacks: what each does is given by `user`, and `shut` is what closing the channel does.
module _ (user : Call → Life → List Request) (shut : Life → Life) where
  unfoldable pub call_back : Call → Life → Life
  unfolding answer
  call_back c l = answer shut (user c l) (record l { calls = c ∷ l.calls })

  unfoldable pub call_state : Life → Life
  unfolding call_back
  call_state l = if l.has_state then call_back (state_called l.state) l else l

  -- `if (readcb_ && input_.size())`
  unfoldable pub call_read : Life → Life
  unfolding call_back
  call_read l = if l.has_read && not (l.input == 0) then call_back read_called l else l

-- The part of `cleanup` from the test on `reconnectInterval_` on.
unfoldable pub leave : ℕ → Life → Life
unfolding reconnect
leave now l =
    if not (ltb_ℤ l.reconnect_interval (pos 0)) && not l.exited
    then reconnect now l
    else record l { has_read = false; has_state = false; channel = none }

module _ (user : Call → Life → List Request) where
  unfoldable pub cleanup : (Life → Life) → ℕ → Life → Life
  unfolding leave call_state call_read
  cleanup shut now l =
      let l1 = call_read user shut l in
      leave now (call_state user shut (record l1 { state = ended_state l1.state; timeout = false }))

  -- `Channel::close` of a channel that is there, and the `handleRead` that it calls: `poll` gives 0 for
  -- the closed `fd`, and `rd` is 0. Closing the channel again in it does nothing.
  unfoldable pub shut_open : ℕ → Life → Bool → Life
  unfolding cleanup
  shut_open now l false = l
  shut_open now l true = if is_live l.state then cleanup (λ z. z) now (close_fd l) else close_fd l

  unfoldable pub shut_channel : ℕ → Life → Option Bool → Life
  unfolding shut_open
  shut_channel now l none = l
  shut_channel now l (some b) = shut_open now l b

  -- `closeNow`
  unfoldable pub shut_now : ℕ → Life → Life
  unfolding shut_channel
  shut_now now l = shut_channel now l l.channel

  -- `handleHandshake`, with what `poll` says.
  unfoldable pub handle_handshake : ℕ → Bool → Life → Option Life
  unfolding cleanup call_state shut_now
  handle_handshake now writable l =
      if is_state l.state State.handshaking
      then some (
          if writable
          then call_state user (shut_now now)
              (record l { state = State.connected; connected_time = now })
          else cleanup (shut_now now) now l)
      else none

  -- The loop of `handleRead`; a list that has run out means EAGAIN.
  unfoldable pub read_loop : ℕ → List Arrival → Life → Life
  unfolding cleanup call_read shut_now
  read_loop now [] l = call_read user (shut_now now) l
  read_loop now (got zero ∷ rs) l = cleanup (shut_now now) now l
  read_loop now (got (suc n) ∷ rs) l = read_loop now rs (record l { input = l.input + suc n })
  read_loop now (interrupted ∷ rs) l = read_loop now rs l
  read_loop now (again ∷ rs) l = call_read user (shut_now now) l
  read_loop now (read_error ∷ rs) l = cleanup (shut_now now) now l

  abbrev pub if_connected : ℕ → List Arrival → Life → Life
  if_connected now rs l = if is_state l.state State.connected then read_loop now rs l else l

  unfoldable pub after_handshake : ℕ → Bool → List Arrival → Option Life → Option Life
  unfolding read_loop
  after_handshake now writable rs none = none
  after_handshake now writable rs (some l) = some (if writable then if_connected now rs l else l)

  -- `handleRead` of an open channel.
  unfoldable pub handle_read : ℕ → Bool → List Arrival → Life → Option Life
  unfolding after_handshake handle_handshake read_loop
  handle_read now writable rs l =
      if is_state l.state State.handshaking
      then after_handshake now writable rs (handle_handshake now writable l)
      else some (if_connected now rs l)

  -- `handleWrite`, up to the writing.
  unfoldable pub handle_write : ℕ → Bool → Life → Option Life
  unfolding handle_handshake
  handle_write now writable l =
      if is_state l.state State.handshaking then handle_handshake now writable l else some l

  -- `channel_->close()`, of which a NULL is fatal.
  unfoldable pub closed_channel : ℕ → Life → Option Bool → Option Life
  unfolding shut_open
  closed_channel now l none = none
  closed_channel now l (some b) = some (shut_open now l b)

  unfoldable pub close_channel : ℕ → Life → Option Life
  unfolding closed_channel
  close_channel now l = closed_channel now l l.channel

  -- The task of `close`.
  unfoldable pub close_task : ℕ → Life → Option Life
  unfolding close_channel
  close_task now l = if is_set l.channel then close_channel now l else some l

  -- The timer of `connect`.
  unfoldable pub timeout_task : ℕ → Life → Option Life
  unfolding close_channel
  timeout_task now l = if is_state l.state State.handshaking then close_channel now l else some l

  -- What happens to a connection.
  unfoldable pub run : Event → Life → Option Life
  unfolding handle_read handle_write close_task timeout_task reconnect_task close
  run (readable now writable rs) l =
      if is_set l.channel then handle_read now writable rs l else some l
  run (can_write now writable) l = if is_set l.channel then handle_write now writable l else some l
  run (close_due now) l =
      if l.closings == 0 then some l else close_task now (record l { closings = l.closings - 1 })
  run (timeout_due now) l =
      if l.timeout then timeout_task now (record l { timeout = false }) else some l
  run (reconnect_due now works) l = reconnect_task now works l
  run closes l = some (close l)
  run exits l = some (record l { exited = true })
