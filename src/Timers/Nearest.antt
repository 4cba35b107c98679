-- ===== src/Timers/Nearest.antt =====
-- `refreshNearest`: how long the poller may wait.
use handy_copy.Base.{
  All, List, arith, max, ℕ, ◌+◌, ◌<◌, ◌^◌, ◌∷◌, ◌≡◌, ◌≤◌, All-map, [], ap, min, ◌∙◌,
}
use handy_copy.Timers.{clip, poll_wait, refresh_nearest, Events, Key, Job, nearest}
use handy_copy.Timers.Map.{IsSorted, Before}

clip_near : (now at : ℕ) → at < now + 2 ^ 31 → now ≤ at + 2 ^ 31 → now + clip at now ≤ max now at
unfolding clip
clip_near now at h g = ground arith

clip_far : (now ahead : ℕ) → 2 ^ 31 ≤ ahead → ahead < 2 ^ 32 → clip (now + ahead) now ≡ 0
unfolding clip
clip_far now ahead lo hi = ground arith

not_later :
    (now wait : ℕ) (k j : Key)
    → now + clip k.at now ≤ max now k.at
    → Before k j
    → now + min wait (clip k.at now) ≤ max now j.at
not_later now wait k j first b = ground arith

module _ {T : Type 0} where
  -- The first key is the nearest.
  in_time :
      (now wait : ℕ) (m : List (Key × Job T))
      → IsSorted m
      → All (λ (p : Key × Job T). (p.0.at < now + 2 ^ 31) × (now ≤ p.0.at + 2 ^ 31)) m
      → All (λ (p : Key × Job T). now + min wait (nearest now m) ≤ max now p.0.at) m
  in_time now wait [] s near = tt
  in_time now wait ((k, job) ∷ m) s near =
      let first = clip_near now k.at near.0.0 near.0.1 in
      (omega arith, All-map _ _ (λ p b. not_later now wait k p.0 first b) m s.0)

  -- While all timers lie within 2 ^ 31 ms of now, the wait that `loop_once` passes to the poller
  -- after `refreshNearest` ends no later than any timer, and at once when one is late.
  pub poll_in_time :
      (now wait : ℕ) (e : Events T)
      → IsSorted e.timers
      → All (λ (p : Key × Job T). (p.0.at < now + 2 ^ 31) × (now ≤ p.0.at + 2 ^ 31)) e.timers
      → All
          (λ (p : Key × Job T). now + poll_wait wait (refresh_nearest now e) ≤ max now p.0.at)
          e.timers
  unfolding poll_wait refresh_nearest
  poll_in_time now wait e s near = in_time now wait e.timers s near

  -- `nextTimeout_` is an `int`: it is 0 for a timer that lies between 2 ^ 31 and 2 ^ 32 ms ahead, and
  -- the loop then polls without waiting.
  pub far_timer_polls :
      (now ahead wait : ℕ) (k : Key) (job : Job T) (m : List (Key × Job T)) (e : Events T)
      → e.timers ≡ (k, job) ∷ m
      → k.at ≡ now + ahead
      → 2 ^ 31 ≤ ahead
      → ahead < 2 ^ 32
      → poll_wait wait (refresh_nearest now e) ≡ 0
  unfolding poll_wait refresh_nearest
  far_timer_polls now ahead wait k job m e at h lo hi =
      let first : nearest now e.timers ≡ clip (now + ahead) now =
        ap (nearest now) at ∙ ap (λ t. clip t now) h in
      ap (min wait) (first ∙ clip_far now ahead lo hi) ∙ omega arith
