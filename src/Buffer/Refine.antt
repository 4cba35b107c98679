-- ===== src/Buffer/Refine.antt =====
-- A buffer behaves as a queue of bytes, over any sequence of the calls that a connection makes.
use handy_copy.Buffer.{Buffer, contents, space, fill, append, consume, make_room_suggested}
use handy_copy.Buffer.Room.{IsValid, Fits, make_room_suggested-Readable}
use handy_copy.Buffer.Contents.{Holds, fill-Holds, append-Holds, consume-Holds}
use handy_copy.Base.{
  Bytes, List, [], ap, arith, drop, length, refl, ℕ, ◌++◌, ◌<◌, ◌∙◌, ◌∷◌, ◌≡◌, ◌≤◌,
}

-- `append(d)`; `consume(n)`; and `makeRoom()` with a `read` into `end()` that gave `d`.
pub data Op : Type 0 where
  put : Bytes → Op
  get : ℕ → Op
  receive : Bytes → Op

unfoldable pub step : Buffer → Op → Buffer
step s (put d) = append s d
step s (get n) = consume s n
step s (receive d) = fill (make_room_suggested s) d

unfoldable pub run : Buffer → List Op → Buffer
run s [] = s
run s (o ∷ os) = run (step s o) os

-- The queue that a buffer stands for.
unfoldable pub queue_step : Bytes → Op → Bytes
queue_step q (put d) = q ++ d
queue_step q (get n) = drop n q
queue_step q (receive d) = q ++ d

unfoldable pub queue_run : Bytes → List Op → Bytes
queue_run q [] = q
queue_run q (o ∷ os) = queue_run (queue_step q o) os

-- The contract of a call: blocks stay below the limit, no more is consumed than is held, and a
-- `read` gives at most `space()` bytes.
abbrev pub Allowed : Buffer → Op → Type 0
Allowed s (put d) = Fits s (length d)
Allowed s (get n) = n ≤ length (contents s)
Allowed s (receive d) = Fits s 0 × (0 < s.exp) × (length d ≤ space (make_room_suggested s))

abbrev pub AllAllowed : Buffer → List Op → Type 0
AllAllowed s [] = Unit
AllAllowed s (o ∷ os) = Allowed s o × AllAllowed (step s o) os

step-Holds :
    (s : Buffer) (o : Op) → IsValid s → Allowed s o → Holds s (step s o) (queue_step (contents s) o)
unfolding step queue_step
step-Holds s (put d) v a = append-Holds s d v a
step-Holds s (get n) v a = consume-Holds s n v a
step-Holds s (receive d) v a =
    let r = make_room_suggested-Readable s v a.0 a.1 in
    let w = fill-Holds (make_room_suggested s) d r.valid (omega (arith, r.valid, a.2)) in
    record {
      valid = w.valid;
      held = w.held ∙ ap (λ t. t ++ d) r.kept;
      exp_kept = w.exp_kept ∙ r.exp_kept;
    }

-- After any sequence of allowed calls (blocks below the limit, no more consumed than is held, no
-- more read than there is room) a valid buffer is valid again and holds what the byte queue holds.
pub run_refines :
    (os : List Op) (s : Buffer)
    → IsValid s
    → AllAllowed s os
    → IsValid (run s os) × (contents (run s os) ≡ queue_run (contents s) os)
unfolding run queue_run
run_refines [] s v a = (v, refl)
run_refines (o ∷ os) s v a =
    let h = step-Holds s o v a.0 in
    let (v', e) = run_refines os (step s o) h.valid a.1 in (v', e ∙ ap (λ q. queue_run q os) h.held)
