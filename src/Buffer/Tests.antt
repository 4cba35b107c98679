-- ===== src/Buffer/Tests.antt =====
-- `Buffer` at concrete bytes.
use handy_copy.Buffer.{
  Buffer, contents, append, consume, make_room_suggested, absorb, make_room, expand, clear, fill,
}
use handy_copy.Buffer.Block.{range, write_at}
use handy_copy.Buffer.Room.{IsValid, Roomy, make_room-Roomy}
use handy_copy.Buffer.Contents.{Holds, absorb-Holds}
use handy_copy.Buffer.Refine.{Op, run, queue_run, run_refines, put, get, queue_step, step, receive}
use handy_copy.Base.{List, [], arith, codes, refl, ◌∷◌, ◌≡◌}

-- Eight bytes, of which the third to the fifth are held.
abbrev small : Buffer
small = record { buf = codes "abcdefgh"; b = 2; e = 5; cap = 8; exp = 4 }

small-IsValid : IsValid small
small-IsValid = omega arith

append-moves : contents (append small (codes "123")) ≡ codes "cde123"
unfolding append make_room fill range write_at
append-moves = refl

append-grows : (append small (codes "1234")).cap ≡ 16
unfolding append make_room fill expand
append-grows = refl

consume-all : consume small 3 ≡ record { buf = []; b = 0; e = 0; cap = 0; exp = 4 }
unfolding consume clear
consume-all = refl

make_room-Roomy_example : Roomy small 4 (make_room small 4)
make_room-Roomy_example = make_room-Roomy small 4 small-IsValid (omega arith)

absorb-Holds_example :
    Holds small (absorb small small).0 (codes "cdecde") × Holds small (absorb small small).1 []
unfolding range
absorb-Holds_example = absorb-Holds small small small-IsValid small-IsValid (omega arith)

abbrev script : List Op
script = put (codes "fg") ∷ get 4 ∷ receive (codes "h") ∷ []

run_refines_example : IsValid (run small script) × (contents (run small script) ≡ codes "gh")
unfolding queue_run queue_step step append make_room make_room_suggested expand fill consume range
    write_at
run_refines_example =
    run_refines script small small-IsValid
      (omega arith, (omega arith, ((omega arith, omega arith, omega arith), tt)))
