-- ===== src/Conn/Life/Tests.antt =====
-- A client's connection at concrete events.
use handy_copy.Conn.Life.Runs.{connect-short_of, is_there, lived, run_all}
use handy_copy.Base.{List, Option, [], arith, ltb, none, refl, some, true, ℕ, ◌&&◌, ◌^◌, ◌∷◌, ◌≡◌}
use handy_copy.Conn.Life.{
  shut_open, shut_channel, shut_now, reconnect_delay, Call, Event, Life, connect, Request, State,
  can_write, short_of, new, readable, state_called, take_input, got, set_reconnect, Arrival,
  reconnect_due, timeout_due, attach, run, handle_read, after_handshake, read_loop, handle_write,
  handle_handshake, cleanup, leave, reconnect, call_state, call_read, call_back, answer, close,
  reconnect_task, first_reconnect, timeout_task, close_channel, closed_channel,
}
use handy_copy.Base.Int.{pos}

-- A user who takes three bytes and, when the connection is up, asks for its end.
abbrev polite : Call → Life → List Request
polite Call.read_called l = take_input 3 ∷ []
polite (state_called State.connected) l = set_reconnect (pos 200) ∷ []
polite (state_called s) l = Request.ask_close ∷ []

-- The handshake ends, bytes arrive, the peer closes, the connection is made again and times out.
abbrev day : List Event
day =
    can_write 10 true
    ∷ readable 20 true (got 5 ∷ Arrival.interrupted ∷ got 2 ∷ [])
    ∷ readable 30 true (got 1 ∷ got 0 ∷ [])
    ∷ reconnect_due 230 true
    ∷ timeout_due 330
    ∷ []

abbrev states_told : List Call → List State
states_told [] = []
states_told (Call.read_called ∷ cs) = states_told cs
states_told (state_called s ∷ cs) = s ∷ states_told cs

abbrev told_to : Option Life → List State
told_to none = []
told_to (some l) = states_told l.calls

abbrev timers_of : Option Life → List ℕ
timers_of none = []
timers_of (some l) = l.reconnects

day_told :
    told_to (lived polite 0 (pos 80) 100 true true day)
    ≡ State.failed ∷ State.closed ∷ State.connected ∷ []
unfolding lived run_all connect attach new run handle_read after_handshake read_loop handle_write
    handle_handshake cleanup leave reconnect reconnect_delay call_state call_read call_back answer
    close reconnect_task first_reconnect timeout_task close_channel closed_channel shut_open
    shut_channel shut_now
day_told = refl

day_timers : timers_of (lived polite 0 (pos 80) 100 true true day) ≡ 100 ∷ []
unfolding lived run_all connect attach new run handle_read after_handshake read_loop handle_write
    handle_handshake cleanup leave reconnect reconnect_delay call_state call_read call_back answer
    close reconnect_task first_reconnect timeout_task close_channel closed_channel shut_open
    shut_channel shut_now
day_timers = refl

-- A user whose read callback meets bytes that it cannot decode, and so closes the channel.
abbrev strict : Call → Life → List Request
strict Call.read_called l = Request.close_now ∷ []
strict (state_called s) l = []

-- Bytes arrive together with the end of the connection.
abbrev cut_short : List Event
cut_short = can_write 10 true ∷ readable 20 true (got 5 ∷ got 0 ∷ []) ∷ []

cut_short_told :
    told_to (lived strict 0 (pos 80) 0 true true cut_short) ≡ State.closed ∷ State.connected ∷ []
unfolding lived run_all connect attach new run handle_read after_handshake read_loop handle_write
    handle_handshake cleanup leave reconnect reconnect_delay call_state call_read call_back answer
    close reconnect_task first_reconnect timeout_task close_channel closed_channel shut_open
    shut_channel shut_now
cut_short_told = refl

-- With a reconnect there are two timers, `Closed` is told twice, and the second timer is fatal.
abbrev eager : Call → Life → List Request
eager Call.read_called l = Request.close_now ∷ []
eager (state_called s) l = set_reconnect (pos 100) ∷ []

eager_told :
    told_to (lived eager 0 (pos 80) 0 true true cut_short)
    ≡ State.closed ∷ State.closed ∷ State.connected ∷ []
unfolding lived run_all connect attach new run handle_read after_handshake read_loop handle_write
    handle_handshake cleanup leave reconnect reconnect_delay call_state call_read call_back answer
    close reconnect_task first_reconnect timeout_task close_channel closed_channel shut_open
    shut_channel shut_now
eager_told = refl

eager_timers : timers_of (lived eager 0 (pos 80) 0 true true cut_short) ≡ 90 ∷ 90 ∷ []
unfolding lived run_all connect attach new run handle_read after_handshake read_loop handle_write
    handle_handshake cleanup leave reconnect reconnect_delay call_state call_read call_back answer
    close reconnect_task first_reconnect timeout_task close_channel closed_channel shut_open
    shut_channel shut_now
eager_timers = refl

eager_fatal :
    lived eager 0 (pos 80) 0 true true (
      can_write 10 true
      ∷ readable 20 true (got 5 ∷ got 0 ∷ [])
      ∷ reconnect_due 110 true
      ∷ reconnect_due 110 true
      ∷ [])
    ≡ none
unfolding lived run_all connect attach new run handle_read after_handshake read_loop handle_write
    handle_handshake cleanup leave reconnect reconnect_delay call_state call_read call_back answer
    close reconnect_task first_reconnect timeout_task close_channel closed_channel shut_open
    shut_channel shut_now
eager_fatal = refl

connect-short_of_example :
    is_there (connect 5 (short_of 40000) 100 true (new 5 true true))
    ≡ (true && (ltb 0 40000 && ltb 40000 (2 ^ 15)))
connect-short_of_example = connect-short_of 5 40000 100 true true true (omega arith)
