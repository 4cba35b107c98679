-- ===== src/Conn/Life/Valid.antt =====
-- A client's connection stays valid in `connect`, `cleanup` and `closeNow`.
use handy_copy.Conn.Life.Modes.{Calm, IsPolite, Kept, call_read-Kept, call_state-Kept, leave-stays}
use handy_copy.Conn.Life.Fits.{
  Fits, IsClient, IsDown, IsDown-Fits, IsDown-live, down-Fits, ended-IsDown, good_attach, live-Fits,
  no_timer, one_timer, set_live,
}
use handy_copy.Conn.Life.{
  reconnect_delay, Call, Event, Life, Request, attach, call_read, call_state, cleanup, close_fd,
  connect, ended_state, first_reconnect, is_live, is_set, leave, may_connect, reconnect,
  with_timeout, reconnect_due, shut_channel, shut_now, shut_open,
}
use handy_copy.Base.Int.{ℤ, pos, ltb_ℤ}
use handy_copy.Base.{
  Bool, List, Option, [], ap, arith, false, if_both, none, not, refl, some, subst, sym, true, ℕ,
  ◌&&◌, ◌++◌, ◌∷◌, ◌≡◌, if_is_true, if_is_false,
}

abbrev pub IsValid : Bool → Life → Type 0
IsValid mode l =
    Fits l.state l.channel l.reconnects l.timeout
    × IsClient l.dest_port
    × Calm mode l.reconnect_interval

-- The calls of the system that are fatal otherwise work.
abbrev pub Works : Event → Type 0
Works (reconnect_due now works) = works ≡ true
Works _ = Unit

-- A step that is not fatal, and leaves a valid connection.
abbrev pub Goes : Bool → Option Life → Type 0
Goes mode none = ⊥
Goes mode (some l) = IsValid mode l

-- No timer of `reconnect` is set; and so it is in `cleanup`, behind the change of the state.
abbrev pub Quiet : Bool → Life → Type 0
Quiet mode l = (l.reconnects ≡ []) × IsClient l.dest_port × Calm mode l.reconnect_interval

abbrev pub Down : Bool → Life → Type 0
Down mode l = Quiet mode l × IsDown l.state × (l.timeout ≡ false)

Quiet-Kept :
    (mode : Bool) (shut : Life → Life)
    → (mode ≡ true → (l : Life) → Quiet mode l → Quiet mode (shut l))
    → Kept mode (Quiet mode) shut
Quiet-Kept mode shut h = record {
  taken = λ l n p. p;
  asked = λ l n p. p;
  set = λ l i c p. (p.0, p.1, c);
  shuts = h;
}

Down-Kept :
    (mode : Bool) (shut : Life → Life)
    → (mode ≡ true → (l : Life) → Down mode l → Down mode (shut l))
    → Kept mode (Down mode) shut
Down-Kept mode shut h = record {
  taken = λ l n p. p;
  asked = λ l n p. p;
  set = λ l i c p. ((p.0.0, p.0.1, c), p.1, p.2);
  shuts = h;
}

IsValid-Kept :
    (mode : Bool) (shut : Life → Life)
    → (mode ≡ true → (l : Life) → IsValid mode l → IsValid mode (shut l))
    → Kept mode (IsValid mode) shut
IsValid-Kept mode shut h = record {
  taken = λ l n p. p;
  asked = λ l n p. p;
  set = λ l i c p. (p.0, p.1, c);
  shuts = h;
}

live-Quiet : (mode : Bool) (l : Life) → is_live l.state ≡ true → IsValid mode l → Quiet mode l
live-Quiet mode l e v = ((live-Fits l.state l.channel l.reconnects l.timeout e v.0).1, v.1, v.2)

-- `connect` from a state that allows it, without a channel and a timer of `reconnect`.
pub connect-Goes :
    (mode : Bool) (now : ℕ) (port : ℤ) (timeout : ℕ) (works : Bool) (l : Life)
    → may_connect l.state ≡ true
    → l.channel ≡ none
    → l.reconnects ≡ []
    → IsClient port
    → works ≡ true
    → Calm mode l.reconnect_interval
    → Goes mode (connect now port timeout works l)
unfolding connect attach
connect-Goes mode now port timeout works l m c r p w calm =
    subst (Goes mode) (sym (if_is_true (may_connect l.state && works) _ _ (ground arith))) (
      subst (λ o. Goes mode (with_timeout timeout o))
        (sym (if_is_false _ _ _ (good_attach _ _ _ _ p (ap is_set c) w))) ((refl, r), p, calm))

pub first_reconnect-Goes :
    (mode : Bool) (now : ℕ) (works : Bool) (l : Life) (rs : List ℕ)
    → works ≡ true
    → l.reconnects ≡ rs
    → IsValid mode l
    → Goes mode (first_reconnect now works l rs)
unfolding first_reconnect
first_reconnect-Goes mode now works l [] w e v = v
first_reconnect-Goes mode now works l (d ∷ ds) w e v =
    let (m, c, none_left) = down-Fits l.state l.channel l.reconnects l.timeout d ds e v.0 in
    connect-Goes mode now l.dest_port l.connect_timeout works (record l { reconnects = ds }) m c
      none_left v.1 w v.2

leave-IsValid : (mode : Bool) (now : ℕ) (l : Life) → Down mode l → IsValid mode (leave now l)
unfolding leave reconnect
leave-IsValid mode now l ((er, p, calm), d, t) =
    let again = l.reconnects ++ reconnect_delay now l ∷ [] in
    if_both (IsValid mode) (not (ltb_ℤ l.reconnect_interval (pos 0)) && not l.exited)
      {x = reconnect now l} {y = record l { has_read = false; has_state = false; channel = none }}
      (
        IsDown-Fits l.state again l.timeout d (one_timer l.reconnects (reconnect_delay now l) er) t,
        p,
        calm,
      )
      (IsDown-Fits l.state l.reconnects l.timeout d (no_timer l.reconnects er) t, p, calm)

module _ (mode : Bool) (user : Call → Life → List Request) (polite : IsPolite mode user) where
  module _ (shut : Life → Life) (kq : Kept mode (Quiet mode) shut)
      (kd : Kept mode (Down mode) shut) where
    -- `cleanup` up to `leave`.
    cleanup-Down :
        (l : Life)
        → Quiet mode l
        → let l1 = call_read user shut l in
          Down mode
            (call_state user shut (record l1 { state = ended_state l1.state; timeout = false }))
    cleanup-Down l q =
        let l1 = call_read user shut l in
        let q1 = call_read-Kept mode user polite (Quiet mode) shut kq (λ z cs p. p) l q in
        call_state-Kept mode user polite (Down mode) shut kd (λ z cs p. p)
          (record l1 { state = ended_state l1.state; timeout = false })
          (q1, ended-IsDown l1.state, refl)

    cleanup-IsValid : (now : ℕ) (l : Life) → Quiet mode l → IsValid mode (cleanup user shut now l)
    unfolding cleanup
    cleanup-IsValid now l q =
        let l1 = call_read user shut l in
        leave-IsValid mode now
          (call_state user shut (record l1 { state = ended_state l1.state; timeout = false }))
          (cleanup-Down l q)

    cleanup-Quiet :
        (now : ℕ) (l : Life) → mode ≡ true → Quiet mode l → Quiet mode (cleanup user shut now l)
    unfolding cleanup
    cleanup-Quiet now l e q =
        let l1 = call_read user shut l in
        let l2 =
          call_state user shut (record l1 { state = ended_state l1.state; timeout = false }) in
        let d = cleanup-Down l q in subst (Quiet mode) (sym (leave-stays mode now l2 e d.0.2)) d.0

  still-Quiet : Kept mode (Quiet mode) (λ z. z)
  still-Quiet = Quiet-Kept mode (λ z. z) (λ e l p. p)

  still-Down : Kept mode (Down mode) (λ z. z)
  still-Down = Down-Kept mode (λ z. z) (λ e l p. p)

  shut_channel-Quiet :
      (now : ℕ) (l : Life) (c : Option Bool)
      → mode ≡ true
      → Quiet mode l
      → Quiet mode (shut_channel user now l c)
  unfolding shut_channel shut_open
  shut_channel-Quiet now l none e q = q
  shut_channel-Quiet now l (some false) e q = q
  shut_channel-Quiet now l (some true) e q =
      if_both (Quiet mode) (is_live l.state)
        (cleanup-Quiet (λ z. z) still-Quiet still-Down now (close_fd l) e q) q

  shut_channel-Down :
      (now : ℕ) (l : Life) (c : Option Bool) → Down mode l → Down mode (shut_channel user now l c)
  unfolding shut_channel shut_open
  shut_channel-Down now l none d = d
  shut_channel-Down now l (some false) d = d
  shut_channel-Down now l (some true) d =
      subst (Down mode) (sym (if_is_false (is_live l.state) _ _ (IsDown-live l.state d.1))) d

  pub shut_channel-IsValid :
      (now : ℕ) (l : Life) (c : Option Bool)
      → l.channel ≡ c
      → IsValid mode l
      → IsValid mode (shut_channel user now l c)
  unfolding shut_channel shut_open
  shut_channel-IsValid now l none e v = v
  shut_channel-IsValid now l (some false) e v = v
  shut_channel-IsValid now l (some true) e v =
      let live = set_live l.state l.channel l.reconnects l.timeout (ap is_set e) v.0 in
      subst (IsValid mode) (sym (if_is_true (is_live l.state) _ _ live)) (
        cleanup-IsValid (λ z. z) still-Quiet still-Down now (close_fd l) (live-Quiet mode l live v))

  module _ (now : ℕ) where
    shut_now-Quiet : Kept mode (Quiet mode) (shut_now user now)
    unfolding shut_now
    shut_now-Quiet =
        Quiet-Kept mode (shut_now user now) (λ e l q. shut_channel-Quiet now l l.channel e q)

    shut_now-Down : Kept mode (Down mode) (shut_now user now)
    unfolding shut_now
    shut_now-Down =
        Down-Kept mode (shut_now user now) (λ e l d. shut_channel-Down now l l.channel d)

    pub shut_now-IsValid : Kept mode (IsValid mode) (shut_now user now)
    unfolding shut_now
    shut_now-IsValid =
        IsValid-Kept mode (shut_now user now) (λ e l v. shut_channel-IsValid now l l.channel refl v)

    pub cleanup_now-IsValid :
        (l : Life) → Quiet mode l → IsValid mode (cleanup user (shut_now user now) now l)
    cleanup_now-IsValid l q =
        cleanup-IsValid (shut_now user now) shut_now-Quiet shut_now-Down now l q

    pub call_read_now-IsValid :
        (l : Life) → IsValid mode l → IsValid mode (call_read user (shut_now user now) l)
    call_read_now-IsValid l v =
        call_read-Kept mode user polite (IsValid mode) (shut_now user now) shut_now-IsValid
          (λ z cs p. p) l v
