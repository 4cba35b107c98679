-- ===== src/Codec/Within.antt =====
-- A decoder counts no more bytes than it was given.
use handy_copy.Base.Int.{pos, negsuc, ℤ, ltb_ℤ, ◌+ℤ◌}
use handy_copy.Slice.{Slice}
use handy_copy.Codec.{
  Decoded, line_decode, length_decode, line_scan, frame_length, Span, magic, signed32, to_size,
  partial, int_of, line_find,
}
use handy_copy.Base.{
  Bool-cases, [], arith, inl, inr, length, ltb, ℕ, ◌+◌, ◌<◌, ◌^◌, ◌∷◌, ◌≡◌, ◌≤◌, Bool, Option,
  equal, if◌then◌else◌, none, not, some, take, ◌%◌, ◌*◌, ◌||◌, refl,
}

abbrev pub Within : (Slice → Decoded) → Slice → Type 0
Within decode data' = (n : ℕ) → (decode data').ret ≡ pos n → n ≤ length data'

line_scan-Within :
    (data' rest : Slice) (i n : ℕ) → (line_scan data' i rest).ret ≡ pos n → n ≤ i + length rest
unfolding line_scan
line_scan-Within data' [] i n h = ground (arith, h)
line_scan-Within data' (c ∷ rest) i n h = ground (arith, h, line_scan-Within data' rest (i + 1) n)

line_find-Within : (data' : Slice) → Within line_find data'
unfolding line_find
line_find-Within data' n h = ground (arith, h, line_scan-Within data' data' 0 n)

int_of_below :
    (z : ℤ) (size n : ℕ)
    → ((k : ℕ) → z ≡ pos k → k ≤ size)
    → size < 2 ^ 31
    → int_of z ≡ pos n
    → n ≤ size
int_of_below (pos k) size n f small h = ground (arith, f k refl, h)
int_of_below (negsuc k) size n f small h = absurd (cc h)

pub line_decode-Within : (data' : Slice) → length data' < 2 ^ 31 → Within line_decode data'
unfolding line_decode
line_decode-Within data' small n h =
    int_of_below (line_find data').ret (length data') n (line_find-Within data') small h

-- The tests of `LengthCodec::tryDecode` behind the first.
tested-bounds :
    (len : ℤ) (size n : ℕ) (bad : Bool) (m : Option Span)
    → size < 2 ^ 31
    → 8 ≤ size
    → (if bad
        then record { ret = negsuc 0; msg = none }
        else if not (ltb_ℤ (signed32 (size % 2 ^ 32)) (len +ℤ pos 8))
        then record { ret = len +ℤ pos 8; msg = m }
        else partial).ret
      ≡ pos n
    → n ≤ size
tested-bounds (pos v) size n bad m small long h = ground (arith, h)
tested-bounds (negsuc k) size n bad m small long h = ground (arith, h)

pub length_decode-Within : (data' : Slice) → length data' < 2 ^ 31 → Within length_decode data'
unfolding length_decode
length_decode-Within data' small n h = elim (Bool-cases (ltb (length data') 8)) [
  | inl short ↦ ground (arith, rw short at h)
  | inr long ↦
      tested-bounds (frame_length data') (length data') n
        (ltb_ℤ (pos (1024 * 1024)) (frame_length data') || not (equal (take 4 data') magic))
        (some (record { off = 8; len = to_size (frame_length data') })) small (ground (arith, long))
        (rw long at h)
]
