-- ===== src/Buffer/Contents.antt =====
-- What each operation of `Buffer` does to the bytes that the buffer holds.
use handy_copy.Buffer.Block.{
  range, range-write_at, range-drop, length-write_at, range-write_at_self,
}
use handy_copy.Buffer.{
  Buffer, clear, contents, fill, append, consume, absorb, copy, Bytes, [], length, ℕ, ◌+◌, add_size,
  make_room, size, copy_block,
}
use handy_copy.Buffer.Room.{IsValid, Fits, make_room-Roomy, length-contents, size_lem}
use handy_copy.Base.{
  arith, ◌++◌, ◌+◌, ◌≡◌, ◌≤◌, Bool-cases, drop, ◌∙◌, ap, inl, inr, nil_of_length, refl, sym, ==_iff,
  length-replicate, replicate, ◌==◌, ◌∷◌,
}

-- `s'` is valid, holds `bytes`, and has the suggested size of `s`.
pub record Holds (s s' : Buffer) (bytes : Bytes) : Type 0 where
  pub valid : IsValid s'
  pub held : contents s' ≡ bytes
  pub exp_kept : s'.exp ≡ s.exp

-- Bytes that fit into the room are taken over by `addSize`.
pub fill-Holds :
    (s : Buffer) (d : Bytes)
    → IsValid s
    → s.e + length d ≤ s.cap
    → Holds s (fill s d) (contents s ++ d)
unfolding fill
fill-Holds s d v h = record {
  valid = omega (arith, length-write_at s.buf s.e d);
  held =
      range-write_at s.buf s.b s.e (add_size s.e (length d)) d (omega arith) (omega arith)
        (omega arith);
  exp_kept = refl;
}

-- `append` to a valid buffer, with blocks below the limit, adds its bytes at the end, and keeps
-- the buffer valid and its suggested size.
pub append-Holds :
    (s : Buffer) (d : Bytes)
    → IsValid s
    → Fits s (length d)
    → Holds s (append s d) (contents s ++ d)
unfolding append
append-Holds s d v f =
    let r = make_room-Roomy s (length d) v f in
    let w = fill-Holds (make_room s (length d)) d r.valid r.room in
    record {
      valid = w.valid;
      held = w.held ∙ ap (λ t. t ++ d) r.kept;
      exp_kept = w.exp_kept ∙ r.exp_kept;
    }

clear-Holds : (s : Buffer) → IsValid s → Holds s (clear s) []
unfolding clear range
clear-Holds s v = record { valid = omega arith; held = refl; exp_kept = refl }

advanced :
    (s : Buffer) (len : ℕ) → IsValid s → len ≤ length (contents s) → add_size s.b len ≡ s.b + len
advanced s len v h = omega (arith, length-contents v)

-- `consume(len)` drops the first `len` bytes, if there are so many.
pub consume-Holds :
    (s : Buffer) (len : ℕ)
    → IsValid s
    → len ≤ length (contents s)
    → Holds s (consume s len) (drop len (contents s))
unfolding consume
consume-Holds s len v h =
    let s' = record s { b = add_size s.b len } in
    let valid' : IsValid s' = omega (arith, length-contents v) in
    let held' : contents s' ≡ drop len (contents s) =
      range-drop s.buf s.b (add_size s.b len) s.e len (advanced s len v h) in
    elim (Bool-cases (size s' == 0)) [
      | inl done ↦ rw done (
          let r = clear-Holds s' valid' in
          let none_left : length (contents s') ≡ 0 =
            omega (arith, length-contents valid', size_lem valid', (==_iff _ _).0 done) in
          record {
            valid = r.valid;
            held = r.held ∙ sym (nil_of_length (contents s') none_left) ∙ held';
            exp_kept = r.exp_kept;
          })
      | inr more ↦ rw more (record { valid = valid'; held = held'; exp_kept = refl })
    ]

-- `absorb` moves all bytes of the other buffer to the end of this one, whether it swaps the two or
-- copies; each keeps its own suggested size, and both are valid afterwards. Both are valid before,
-- and blocks stay below the limit.
pub absorb-Holds :
    (s o : Buffer)
    → IsValid s
    → IsValid o
    → Fits s (length (contents o))
    → Holds s (absorb s o).0 (contents s ++ contents o) × Holds o (absorb s o).1 []
unfolding absorb
absorb-Holds s o v w f = elim (Bool-cases (size s == 0)) [
  | inl nothing ↦ rw nothing (
      let none_held : contents s ≡ [] =
        nil_of_length (contents s)
          (omega (arith, length-contents v, size_lem v, (==_iff _ _).0 nothing)) in
      (
        record { valid = omega arith; held = rw none_held; exp_kept = refl },
        record { valid = omega arith; held = none_held; exp_kept = refl },
      ))
  | inr some_held ↦ rw some_held (append-Holds s (contents o) v f, clear-Holds o w)
]

copy_block-Holds : (m : Bytes) (s : Buffer) → IsValid s → Holds s (copy_block m s) (contents s)
unfolding copy_block
copy_block-Holds [] s v = record { valid = v; held = refl; exp_kept = refl }
copy_block-Holds (_ ∷ _) s v =
    let zeros = length-replicate {A = ℕ} s.cap 0 in
    record {
      valid = omega (arith, length-write_at (replicate s.cap 0) s.b (contents s), zeros);
      held =
          range-write_at_self (replicate s.cap 0) s.b s.e (contents s)
            (omega (arith, length-contents v)) (omega (arith, zeros));
      exp_kept = refl;
    }

-- A copy of a valid buffer is valid and holds the same bytes, in a block of its own, with the same
-- suggested size.
pub copy-Holds : (s : Buffer) → IsValid s → Holds s (copy s) (contents s)
unfolding copy
copy-Holds s v = copy_block-Holds s.buf s v
