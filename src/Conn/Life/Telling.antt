-- ===== src/Conn/Life/Telling.antt =====
-- Every step tells the user a story.
use handy_copy.Conn.Life.Modes.{Calm, IsPolite, Kept, call_back-Kept}
use handy_copy.Conn.Life.Story.{
  Aware, Aware-Kept, InStory, May, Sound, Sound-Kept, SoundIn, connected-May, ended-May,
  first_reconnect-SoundIn, is_up, leave-Aware, leave-Sound, tell-Knows,
}
use handy_copy.Conn.Life.Fits.{connected_live, handshaking_live}
use handy_copy.Conn.{State}
use handy_copy.Conn.Life.{
  Arrival, Call, Event, Life, Request, after_handshake, call_read, call_state, cleanup, close,
  close_channel, closed_channel, close_fd, close_task, ended_state, handle_handshake, handle_read,
  handle_write, if_connected, is_live, is_set, is_state, read_loop, reconnect_task, run,
  timeout_task, read_called, state_called, got, readable, can_write, close_due, timeout_due,
  reconnect_due, shut_channel, shut_now, shut_open,
}
use handy_copy.Base.{
  Bool, List, Option, [], false, if_both, if_cases, none, not, some, true, ℕ, ◌&&◌, ◌+◌, ◌-◌, ◌==◌,
  ◌∷◌, ◌≡◌, suc, zero,
}

module _ (mode : Bool) (user : Call → Life → List Request) (polite : IsPolite mode user) where
  module _ (shut : Life → Life) (ks : Kept mode (Sound mode) shut) where
    call_read-Sound : (l : Life) → Sound mode l → Sound mode (call_read user shut l)
    unfolding call_read
    call_read-Sound l h =
        if_both (Sound mode) (l.has_read && not (l.input == 0))
          (call_back-Kept mode user polite (Sound mode) shut ks read_called l h) h

    -- `statecb_` is called in a state that may be told if there is a callback.
    call_state-Sound :
        (l : Life)
        → InStory l.calls
        → (l.has_state ≡ true → May l.state (is_up l.calls))
        → Calm mode l.reconnect_interval
        → Sound mode (call_state user shut l)
    unfolding call_state
    call_state-Sound l h m calm =
        if_cases (Sound mode) l.has_state
          (λ e.
            call_back-Kept mode user polite (Sound mode) shut ks (state_called l.state) l
              (tell-Knows l.has_state l.state l.calls (m e) h, calm))
          (λ e. ((h, λ t. absurd (cc (e, t))), calm))

    module _ (ka : Kept mode (Aware mode) shut) where
      call_read-Aware : (l : Life) → Aware mode l → Aware mode (call_read user shut l)
      unfolding call_read
      call_read-Aware l h =
          if_both (Aware mode) (l.has_read && not (l.input == 0))
            (call_back-Kept mode user polite (Aware mode) shut ka read_called l h) h

      -- `cleanup` up to `leave`.
      ended-Sound :
          (l : Life)
          → Aware mode l
          → let l1 = call_read user shut l in
            Sound mode
              (call_state user shut (record l1 { state = ended_state l1.state; timeout = false }))
      ended-Sound l h =
          let l1 = call_read user shut l in
          let a = call_read-Aware l h in
          call_state-Sound (record l1 { state = ended_state l1.state; timeout = false }) a.0.0.0
            (λ t. ended-May l1.state (is_up l1.calls) (a.1 t) (a.0.0.1 t)) a.0.1

      cleanup-Sound : (now : ℕ) (l : Life) → Aware mode l → Sound mode (cleanup user shut now l)
      unfolding cleanup
      cleanup-Sound now l h =
          let l1 = call_read user shut l in
          leave-Sound mode now
            (call_state user shut (record l1 { state = ended_state l1.state; timeout = false }))
            (ended-Sound l h)

      cleanup-Aware :
          (now : ℕ) (l : Life) → mode ≡ true → Aware mode l → Aware mode (cleanup user shut now l)
      unfolding cleanup
      cleanup-Aware now l e h =
          let l1 = call_read user shut l in
          leave-Aware mode now
            (call_state user shut (record l1 { state = ended_state l1.state; timeout = false })) e
            (ended-Sound l h)

  still-Sound : Kept mode (Sound mode) (λ z. z)
  still-Sound = Sound-Kept mode (λ z. z) (λ e l p. p)

  still-Aware : Kept mode (Aware mode) (λ z. z)
  still-Aware = Aware-Kept mode (λ z. z) (λ e l p. p)

  shut_open-Sound :
      (now : ℕ) (l : Life) (b : Bool) → Sound mode l → Sound mode (shut_open user now l b)
  unfolding shut_open
  shut_open-Sound now l false h = h
  shut_open-Sound now l true h =
      if_cases (Sound mode) (is_live l.state)
        (λ e. cleanup-Sound (λ z. z) still-Sound still-Aware now (close_fd l) (h, λ t. e)) (λ e. h)

  shut_channel-Sound :
      (now : ℕ) (l : Life) (c : Option Bool) → Sound mode l → Sound mode (shut_channel user now l c)
  unfolding shut_channel
  shut_channel-Sound now l none h = h
  shut_channel-Sound now l (some b) h = shut_open-Sound now l b h

  shut_channel-Aware :
      (now : ℕ) (l : Life) (c : Option Bool)
      → mode ≡ true
      → Aware mode l
      → Aware mode (shut_channel user now l c)
  unfolding shut_channel shut_open
  shut_channel-Aware now l none m h = h
  shut_channel-Aware now l (some false) m h = h
  shut_channel-Aware now l (some true) m h =
      if_both (Aware mode) (is_live l.state)
        (cleanup-Aware (λ z. z) still-Sound still-Aware now (close_fd l) m h) h

  shut_now-Sound : (now : ℕ) → Kept mode (Sound mode) (shut_now user now)
  unfolding shut_now
  shut_now-Sound now =
      Sound-Kept mode (shut_now user now) (λ m l h. shut_channel-Sound now l l.channel h)

  shut_now-Aware : (now : ℕ) → Kept mode (Aware mode) (shut_now user now)
  unfolding shut_now
  shut_now-Aware now =
      Aware-Kept mode (shut_now user now) (λ m l h. shut_channel-Aware now l l.channel m h)

  cleanup_now-Sound :
      (now : ℕ) (l : Life)
      → is_live l.state ≡ true
      → Sound mode l
      → Sound mode (cleanup user (shut_now user now) now l)
  cleanup_now-Sound now l e h =
      cleanup-Sound (shut_now user now) (shut_now-Sound now) (shut_now-Aware now) now l (h, λ t. e)

  read_loop-Sound :
      (now : ℕ) (rs : List Arrival) (l : Life)
      → is_live l.state ≡ true
      → Sound mode l
      → Sound mode (read_loop user now rs l)
  unfolding read_loop
  read_loop-Sound now [] l e h = call_read-Sound (shut_now user now) (shut_now-Sound now) l h
  read_loop-Sound now (got zero ∷ rs) l e h = cleanup_now-Sound now l e h
  read_loop-Sound now (got (suc n) ∷ rs) l e h =
      read_loop-Sound now rs (record l { input = l.input + suc n }) e h
  read_loop-Sound now (Arrival.interrupted ∷ rs) l e h = read_loop-Sound now rs l e h
  read_loop-Sound now (Arrival.again ∷ rs) l e h =
      call_read-Sound (shut_now user now) (shut_now-Sound now) l h
  read_loop-Sound now (Arrival.read_error ∷ rs) l e h = cleanup_now-Sound now l e h

  if_connected-Sound :
      (now : ℕ) (rs : List Arrival) (l : Life)
      → Sound mode l
      → Sound mode (if_connected user now rs l)
  if_connected-Sound now rs l h =
      if_cases (Sound mode) (is_state l.state State.connected)
        (λ e. read_loop-Sound now rs l (connected_live l.state e) h) (λ e. h)

  handshake-SoundIn :
      (now : ℕ) (writable : Bool) (l : Life)
      → Sound mode l
      → SoundIn mode (handle_handshake user now writable l)
  unfolding handle_handshake
  handshake-SoundIn now writable l h =
      if_cases (SoundIn mode) (is_state l.state State.handshaking)
        (λ e.
          if_both (Sound mode) writable
            (call_state-Sound (shut_now user now) (shut_now-Sound now)
              (record l { state = State.connected; connected_time = now }) h.0.0
              (λ t. connected-May l.state (is_up l.calls) e (h.0.1 t)) h.1)
            (cleanup_now-Sound now l (handshaking_live l.state e) h))
        (λ e. tt)

  after_handshake-SoundIn :
      (now : ℕ) (writable : Bool) (rs : List Arrival) (o : Option Life)
      → SoundIn mode o
      → SoundIn mode (after_handshake user now writable rs o)
  unfolding after_handshake
  after_handshake-SoundIn now writable rs none h = tt
  after_handshake-SoundIn now writable rs (some l) h =
      if_both (Sound mode) writable (if_connected-Sound now rs l h) h

  closed_channel-SoundIn :
      (now : ℕ) (l : Life) (c : Option Bool)
      → Sound mode l
      → SoundIn mode (closed_channel user now l c)
  unfolding closed_channel
  closed_channel-SoundIn now l none h = tt
  closed_channel-SoundIn now l (some b) h = shut_open-Sound now l b h

  pub run-SoundIn : (e : Event) (l : Life) → Sound mode l → SoundIn mode (run user e l)
  unfolding run handle_read handle_write close_task timeout_task close_channel reconnect_task close
  run-SoundIn (readable now writable rs) l h =
      if_both (SoundIn mode) (is_set l.channel)
        (if_both (SoundIn mode) (is_state l.state State.handshaking)
          (after_handshake-SoundIn now writable rs _ (handshake-SoundIn now writable l h))
          (if_connected-Sound now rs l h))
        h
  run-SoundIn (can_write now writable) l h =
      if_both (SoundIn mode) (is_set l.channel)
        (if_both (SoundIn mode) (is_state l.state State.handshaking)
          (handshake-SoundIn now writable l h) h)
        h
  run-SoundIn (close_due now) l h =
      let l1 = record l { closings = l.closings - 1 } in
      if_both (SoundIn mode) (l.closings == 0) h
        (if_both (SoundIn mode) (is_set l.channel) (closed_channel-SoundIn now l1 l.channel h) h)
  run-SoundIn (timeout_due now) l h =
      let l1 = record l { timeout = false } in
      if_both (SoundIn mode) l.timeout
        (if_both (SoundIn mode) (is_state l.state State.handshaking)
          (closed_channel-SoundIn now l1 l.channel h) h)
        h
  run-SoundIn (reconnect_due now works) l h =
      first_reconnect-SoundIn mode now works l l.reconnects h
  run-SoundIn Event.closes l h = if_both (Sound mode) (is_set l.channel) h h
  run-SoundIn Event.exits l h = h
