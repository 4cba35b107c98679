-- ===== src/Codec/Word.antt =====
-- 32-bit words: their bytes in memory, the swap of `htobe`, and the sign of an `int32_t`.
use handy_copy.Base.Int.{ℤ, pos, negsuc}
use handy_copy.Base.{
  Bytes, [], arith, if◌then◌else◌, ltb, ℕ, ◌%◌, ◌*◌, ◌+◌, ◌-◌, ◌/◌, ◌<◌, ◌^◌, ◌∷◌, ◌≡◌,
}

-- The four bytes of a word in the memory of a little-endian machine, and the word back from them.
unfoldable pub le_bytes : ℕ → Bytes
le_bytes v = v % 256 ∷ v / 256 % 256 ∷ v / 65536 % 256 ∷ v / 16777216 % 256 ∷ []

unfoldable pub le_word : Bytes → ℕ
le_word [] = 0
le_word (x ∷ m) = x + 256 * le_word m

-- `port::htobe(uint32_t)`: `pv[0] << 24 | pv[1] << 16 | pv[2] << 8 | pv[3]`. The four bytes do not
-- overlap, so their disjunction is their sum. `hton` and `ntoh` are this one function.
unfoldable pub hton32 : ℕ → ℕ
hton32 v =
    (v % 256) * 16777216 + (v / 256 % 256) * 65536 + (v / 65536 % 256) * 256 + v / 16777216 % 256

-- The `int32_t` of a bit pattern.
abbrev pub signed32 : ℕ → ℤ
signed32 w = if ltb w (2 ^ 31) then pos w else negsuc (2 ^ 32 - w - 1)

-- Swapping twice gives the word back: `ntoh` undoes `hton`.
pub hton32-hton32 : (v : ℕ) → v < 2 ^ 32 → hton32 (hton32 v) ≡ v
unfolding hton32
hton32-hton32 v h = omega arith

pub hton32-lt : (v : ℕ) → hton32 v < 2 ^ 32
unfolding hton32
hton32-lt v = omega arith

pub le_word-le_bytes : (v : ℕ) → v < 2 ^ 32 → le_word (le_bytes v) ≡ v
unfolding le_word le_bytes
le_word-le_bytes v h = omega arith

-- A word is sent with its highest byte first.
pub le_bytes-hton32 :
    (v : ℕ)
    → le_bytes (hton32 v) ≡ v / 16777216 % 256 ∷ v / 65536 % 256 ∷ v / 256 % 256 ∷ v % 256 ∷ []
unfolding le_bytes hton32
le_bytes-hton32 v = ground arith
