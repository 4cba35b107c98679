-- ===== src/Conn/Life/Steps.antt =====
-- No step in the life of a client's connection is fatal.
use handy_copy.Conn.Life.Valid.{
  Goes, IsValid, Works, call_read_now-IsValid, cleanup_now-IsValid, first_reconnect-Goes,
  shut_channel-IsValid, shut_now-IsValid,
}
use handy_copy.Conn.Life.Fits.{
  Fits-no_timeout, connected_live, handshaking-Fits, handshaking_live, live-Fits, set_live,
}
use handy_copy.Conn.Life.Modes.{IsPolite, call_state-Kept}
use handy_copy.Conn.{State}
use handy_copy.Conn.Life.{
  Arrival, Call, Event, Life, Request, after_handshake, close, close_channel, closed_channel,
  close_task, handle_handshake, handle_read, handle_write, if_connected, is_live, is_set, is_state,
  read_loop, reconnect_task, run, timeout_task, got, readable, can_write, close_due, timeout_due,
  reconnect_due, shut_channel, shut_now,
}
use handy_copy.Base.{
  Bool, List, Option, [], false, if_both, none, refl, some, subst, sym, true, ℕ, ◌-◌, ◌==◌, ◌∷◌,
  ◌≡◌, if_cases, if_is_true, ◌+◌, suc, zero,
}

module _ (mode : Bool) (user : Call → Life → List Request) (polite : IsPolite mode user) where
  read_loop-IsValid :
      (now : ℕ) (rs : List Arrival) (l : Life)
      → l.reconnects ≡ []
      → IsValid mode l
      → IsValid mode (read_loop user now rs l)
  unfolding read_loop
  read_loop-IsValid now [] l e v = call_read_now-IsValid mode user polite now l v
  read_loop-IsValid now (got zero ∷ rs) l e v =
      cleanup_now-IsValid mode user polite now l (e, v.1, v.2)
  read_loop-IsValid now (got (suc n) ∷ rs) l e v =
      read_loop-IsValid now rs (record l { input = l.input + suc n }) e v
  read_loop-IsValid now (Arrival.interrupted ∷ rs) l e v = read_loop-IsValid now rs l e v
  read_loop-IsValid now (Arrival.again ∷ rs) l e v = call_read_now-IsValid mode user polite now l v
  read_loop-IsValid now (Arrival.read_error ∷ rs) l e v =
      cleanup_now-IsValid mode user polite now l (e, v.1, v.2)

  if_connected-IsValid :
      (now : ℕ) (rs : List Arrival) (l : Life)
      → IsValid mode l
      → IsValid mode (if_connected user now rs l)
  if_connected-IsValid now rs l v =
      if_cases (IsValid mode) (is_state l.state State.connected)
        (λ e.
          read_loop-IsValid now rs l
            (live-Fits l.state l.channel l.reconnects l.timeout (connected_live l.state e) v.0).1 v)
        (λ e. v)

  -- The end of the handshake.
  handshake-Goes :
      (now : ℕ) (writable : Bool) (l : Life)
      → is_state l.state State.handshaking ≡ true
      → IsValid mode l
      → Goes mode (handle_handshake user now writable l)
  unfolding handle_handshake
  handshake-Goes now writable l e v =
      let f = handshaking-Fits l.state l.channel l.reconnects l.timeout e v.0 in
      subst (Goes mode) (sym (if_is_true _ _ _ e)) (
        if_both (IsValid mode) writable
          (call_state-Kept mode user polite (IsValid mode) (shut_now user now)
            (shut_now-IsValid mode user polite now) (λ z cs p. p)
            (record l { state = State.connected; connected_time = now }) (f, v.1, v.2))
          (cleanup_now-IsValid mode user polite now l (f.1, v.1, v.2)))

  after_handshake-Goes :
      (now : ℕ) (writable : Bool) (rs : List Arrival) (o : Option Life)
      → Goes mode o
      → Goes mode (after_handshake user now writable rs o)
  unfolding after_handshake
  after_handshake-Goes now writable rs none g = g
  after_handshake-Goes now writable rs (some l) g =
      if_both (IsValid mode) writable (if_connected-IsValid now rs l g) g

  handle_read-Goes :
      (now : ℕ) (writable : Bool) (rs : List Arrival) (l : Life)
      → IsValid mode l
      → Goes mode (handle_read user now writable rs l)
  unfolding handle_read
  handle_read-Goes now writable rs l v =
      if_cases (Goes mode) (is_state l.state State.handshaking)
        (λ e.
          after_handshake-Goes now writable rs (handle_handshake user now writable l)
            (handshake-Goes now writable l e v))
        (λ e. if_connected-IsValid now rs l v)

  handle_write-Goes :
      (now : ℕ) (writable : Bool) (l : Life)
      → IsValid mode l
      → Goes mode (handle_write user now writable l)
  unfolding handle_write
  handle_write-Goes now writable l v =
      if_cases (Goes mode) (is_state l.state State.handshaking)
        (λ e. handshake-Goes now writable l e v) (λ e. v)

  -- Closing an open channel.
  close_channel-Goes :
      (now : ℕ) (l : Life)
      → is_live l.state ≡ true
      → IsValid mode l
      → Goes mode (close_channel user now l)
  unfolding close_channel closed_channel shut_channel
  close_channel-Goes now l e v =
      let f = live-Fits l.state l.channel l.reconnects l.timeout e v.0 in
      subst (λ c. Goes mode (closed_channel user now l c)) (sym f.0)
        (shut_channel-IsValid mode user polite now l (some true) f.0 v)

  timeout_task-Goes : (now : ℕ) (l : Life) → IsValid mode l → Goes mode (timeout_task user now l)
  unfolding timeout_task
  timeout_task-Goes now l v =
      if_cases (Goes mode) (is_state l.state State.handshaking)
        (λ e. close_channel-Goes now l (handshaking_live l.state e) v) (λ e. v)

  close_task-Goes : (now : ℕ) (l : Life) → IsValid mode l → Goes mode (close_task user now l)
  unfolding close_task
  close_task-Goes now l v =
      if_cases (Goes mode) (is_set l.channel)
        (λ e. close_channel-Goes now l (set_live l.state l.channel l.reconnects l.timeout e v.0) v)
        (λ e. v)

  -- In any state of a client's connection that `connect` and such steps lead to, no step is fatal
  -- or uses a channel that is not there, and the connection stays valid: it has an open channel
  -- just while it is live, and never more than one timer of `reconnect`.
  pub run-Goes : (e : Event) (l : Life) → Works e → IsValid mode l → Goes mode (run user e l)
  unfolding run reconnect_task close
  run-Goes (readable now writable rs) l w v =
      if_both (Goes mode) (is_set l.channel) (handle_read-Goes now writable rs l v) v
  run-Goes (can_write now writable) l w v =
      if_both (Goes mode) (is_set l.channel) (handle_write-Goes now writable l v) v
  run-Goes (close_due now) l w v =
      if_both (Goes mode) (l.closings == 0) v
        (close_task-Goes now (record l { closings = l.closings - 1 }) v)
  run-Goes (timeout_due now) l w v =
      if_both (Goes mode) l.timeout
        (timeout_task-Goes now (record l { timeout = false })
          (Fits-no_timeout l.state l.channel l.reconnects l.timeout v.0, v.1, v.2))
        v
  run-Goes (reconnect_due now works) l w v =
      first_reconnect-Goes mode now works l l.reconnects w refl v
  run-Goes Event.closes l w v = if_both (IsValid mode) (is_set l.channel) v v
  run-Goes Event.exits l w v = v
