-- ===== src/Conn/Life/Modes.antt =====
-- What the callbacks of a connection may do, and which predicates they so keep.
use handy_copy.Conn.Life.{
  Call, Life, Request, answer, call_back, call_read, call_state, close, is_set, leave, read_called,
  state_called, take_input, set_reconnect,
}
use handy_copy.Base.Int.{ℤ, pos, ltb_ℤ}
use handy_copy.Base.{
  Bool, List, [], arith, false, if_both, none, not, true, ℕ, ◌&&◌, ◌-◌, ◌==◌, ◌∷◌, ◌≡◌, if_is_false,
  All, suc,
}

-- In the mode `true` a callback can close the channel at once, and then no interval asks for a
-- reconnect; in the mode `false` no callback closes the channel at once.
abbrev pub Calm : Bool → ℤ → Type 0
Calm mode i = mode ≡ true → ltb_ℤ i (pos 0) ≡ true

abbrev pub Allows : Bool → Request → Type 0
Allows mode (take_input n) = Unit
Allows mode Request.ask_close = Unit
Allows mode Request.close_now = mode ≡ true
Allows mode (set_reconnect i) = Calm mode i

abbrev pub IsPolite : Bool → (Call → Life → List Request) → Type 0
IsPolite mode user = (c : Call) (l : Life) → All (Allows mode) (user c l)

-- What a callback can do keeps a predicate.
pub record Kept (mode : Bool) (P : Life → Type 0) (shut : Life → Life) : Type 0 where
  pub taken : (l : Life) (n : ℕ) → P l → P (record l { input = n })
  pub asked : (l : Life) (n : ℕ) → P l → P (record l { closings = n })
  pub set : (l : Life) (i : ℤ) → Calm mode i → P l → P (record l { reconnect_interval = i })
  pub shuts : mode ≡ true → (l : Life) → P l → P (shut l)

pub answer-Kept :
    (mode : Bool) (P : Life → Type 0) (shut : Life → Life)
    → Kept mode P shut
    → (rs : List Request) (l : Life) → All (Allows mode) rs
    → P l
    → P (answer shut rs l)
unfolding answer close
answer-Kept mode P shut k [] l a p = p
answer-Kept mode P shut k (take_input n ∷ rs) l a p =
    answer-Kept mode P shut k rs (record l { input = l.input - n }) a.1 (k.taken l (l.input - n) p)
answer-Kept mode P shut k (Request.ask_close ∷ rs) l a p =
    answer-Kept mode P shut k rs (close l) a.1
      (if_both P (is_set l.channel) (k.asked l (suc l.closings) p) p)
answer-Kept mode P shut k (Request.close_now ∷ rs) l a p =
    answer-Kept mode P shut k rs (shut l) a.1 (k.shuts a.0 l p)
answer-Kept mode P shut k (set_reconnect i ∷ rs) l a p =
    answer-Kept mode P shut k rs (record l { reconnect_interval = i }) a.1 (k.set l i a.0 p)

-- In the mode `true` there is no reconnect.
pub leave-stays :
    (mode : Bool) (now : ℕ) (l : Life)
    → mode ≡ true
    → Calm mode l.reconnect_interval
    → leave now l ≡ record l { has_read = false; has_state = false; channel = none }
unfolding leave
leave-stays mode now l e calm =
    if_is_false (not (ltb_ℤ l.reconnect_interval (pos 0)) && not l.exited) _ _
      (ground (arith, calm e))

-- The callbacks.
module _ (mode : Bool) (user : Call → Life → List Request) (polite : IsPolite mode user) where
  module _ (P : Life → Type 0) (shut : Life → Life) (k : Kept mode P shut) where
    pub call_back-Kept :
        (c : Call) (l : Life) → P (record l { calls = c ∷ l.calls }) → P (call_back user shut c l)
    unfolding call_back
    call_back-Kept c l p =
        answer-Kept mode P shut k (user c l) (record l { calls = c ∷ l.calls }) (polite c l) p

    -- Where the calls do not matter.
    module _ (any_calls : (l : Life) (cs : List Call) → P l → P (record l { calls = cs })) where
      pub call_state-Kept : (l : Life) → P l → P (call_state user shut l)
      unfolding call_state
      call_state-Kept l p =
          if_both P l.has_state
            (call_back-Kept (state_called l.state) l
              (any_calls l (state_called l.state ∷ l.calls) p))
            p

      pub call_read-Kept : (l : Life) → P l → P (call_read user shut l)
      unfolding call_read
      call_read-Kept l p =
          if_both P (l.has_read && not (l.input == 0))
            (call_back-Kept read_called l (any_calls l (read_called ∷ l.calls) p)) p
