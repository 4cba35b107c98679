-- ===== src/Buffer/Room.antt =====
-- `makeRoom`: the representation invariant, and that there is room afterwards.
use handy_copy.Base.{
  ℕ, ◌+◌, ◌-◌, ◌*◌, ◌^◌, ◌≤◌, max, ◌≡◌, refl, arith, length, length-replicate, replicate, ◌%◌, ◌<◌,
  Bool-cases, leb, ltb, inl, inr, tests, leb→le, ltb→lt, ◌/◌,
}
use handy_copy.Buffer.Block.{length-write_at, length-range, range-write_at_self}
use handy_copy.Buffer.{
  Buffer, add_size, sub_size, size, contents, move_head, expand, make_room, make_room_suggested,
  space,
}

-- Blocks are far smaller than the address space, so that doubling one does not wrap.
abbrev pub limit : ℕ
limit = 2 ^ 61

-- The offsets lie in the block in order, and the block has `cap_` bytes.
pub record IsValid (s : Buffer) : Type 0 where
  pub ordered : s.b ≤ s.e
  pub within : s.e ≤ s.cap
  pub block : length s.buf ≡ s.cap
  pub small : s.cap ≤ limit
  pub modest : s.exp ≤ limit

-- `len` bytes more can be asked of `s`: the block that `expand` allocates is below the limit.
pub record Fits (s : Buffer) (len : ℕ) : Type 0 where
  pub doubled : 2 * s.cap ≤ limit
  pub grown : s.cap + len ≤ limit

pub size_lem : {s : Buffer} → IsValid s → size s ≡ s.e - s.b
size_lem v = omega arith

pub length-contents : {s : Buffer} → IsValid s → length (contents s) ≡ s.e - s.b
length-contents {s} v = omega (arith, length-range s.buf s.b s.e)

-- What `makeRoom(len)` does for the bytes that the buffer holds.
pub record Roomy (s : Buffer) (len : ℕ) (s' : Buffer) : Type 0 where
  pub valid : IsValid s'
  pub room : s'.e + len ≤ s'.cap
  pub kept : contents s' ≡ contents s
  pub exp_kept : s'.exp ≡ s.exp

move_head-Roomy :
    (s : Buffer) (len : ℕ) → IsValid s → s.e - s.b + len ≤ s.cap → Roomy s len (move_head s)
unfolding move_head
move_head-Roomy s len v h = record {
  valid = omega (arith, length-write_at s.buf 0 (contents s));
  room = omega arith;
  kept =
      range-write_at_self s.buf 0 (sub_size s.e s.b) (contents s) (omega (arith, length-contents v))
        (omega arith);
  exp_kept = refl;
}

expand-Roomy : (s : Buffer) (len : ℕ) → IsValid s → Fits s len → Roomy s len (expand s len)
unfolding expand
expand-Roomy s len v f =
    let ncap = max s.exp (max (2 * s.cap % 2 ^ 64) (add_size (size s) len)) in
    let zeros = length-replicate {A = ℕ} ncap 0 in
    record {
      valid = omega (arith, length-write_at (replicate ncap 0) 0 (contents s), zeros);
      room = omega arith;
      kept =
          range-write_at_self (replicate ncap 0) 0 (sub_size s.e s.b) (contents s)
            (omega (arith, length-contents v)) (omega (arith, zeros));
      exp_kept = refl;
    }

-- A block that was too small for the suggested size is doubled.
expand-space : (s : Buffer) → IsValid s → Fits s 0 → 0 < s.exp → 0 < space (expand s 0)
unfolding expand
expand-space s v f pos = omega arith

-- `makeRoom(len)` of a valid buffer, with blocks below the limit, leaves room for `len` bytes
-- behind `end()`, on each of its three branches, and keeps the bytes of the buffer, its validity
-- and its suggested size.
pub make_room-Roomy :
    (s : Buffer) (len : ℕ) → IsValid s → Fits s len → Roomy s len (make_room s len)
unfolding make_room
make_room-Roomy s len v f = elim (Bool-cases (leb (add_size s.e len) s.cap)) [
  | inl fits ↦
      rw fits
        (record { valid = v; room = omega (tests, leb→le _ _ fits); kept = refl; exp_kept = refl })
  | inr full ↦ rw full (elim (Bool-cases (ltb (add_size (size s) len) (s.cap / 2))) [
    | inl low ↦ rw low (move_head-Roomy s len v (omega (tests, ltb→lt _ _ low)))
    | inr high ↦ rw high (expand-Roomy s len v f)
  ])
]

-- What `makeRoom()` gives to a `read` of `space()` bytes.
pub record Readable (s s' : Buffer) : Type 0 where
  pub valid : IsValid s'
  pub room : 0 < space s'
  pub kept : contents s' ≡ contents s
  pub exp_kept : s'.exp ≡ s.exp

-- `makeRoom()` of a valid buffer, with blocks below the limit and a suggested size other than 0,
-- leaves at least one free byte and keeps the bytes: so a `read` that returns 0 means that the
-- peer has closed.
pub make_room_suggested-Readable :
    (s : Buffer) → IsValid s → Fits s 0 → 0 < s.exp → Readable s (make_room_suggested s)
unfolding make_room_suggested
make_room_suggested-Readable s v f pos = elim (Bool-cases (ltb (space s) s.exp)) [
  | inl low ↦ rw low (
      let r = expand-Roomy s 0 v f in
      record {
        valid = r.valid;
        room = expand-space s v f pos;
        kept = r.kept;
        exp_kept = r.exp_kept;
      })
  | inr high ↦ rw high (record { valid = v; room = ground arith; kept = refl; exp_kept = refl })
]
