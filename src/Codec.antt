-- ===== src/Codec.antt =====
-- handy/codec.h and handy/codec.cc: `LineCodec` and `LengthCodec`, and the byte order of
-- handy/net.h and handy/port_posix.h on a little-endian machine. A data slice is shorter than
-- 2 ^ 31 bytes, so that the `int` that a decoder returns can count it.
pub mod Word
pub mod Line
pub mod Length
pub mod Within
mod Tests
use handy_copy.Base.Int.{ℤ, pos, negsuc, ◌+ℤ◌, ltb_ℤ, pos_part, neg_part}
use handy_copy.Slice.{Slice, memcmp}
use handy_copy.Buffer.{Buffer, append}
use Word.{le_bytes, le_word, hton32, signed32}
use handy_copy.Base.{
  Bool, Bytes, Option, [], codes, drop, equal, false, get_elem?, if◌then◌else◌, length, ltb, none,
  not, some, suc, take, ℕ, ◌%◌, ◌&&◌, ◌*◌, ◌+◌, ◌-◌, ◌==◌, ◌^◌, ◌||◌, ◌∷◌, ◌≤◌,
}

-- A slice of the data: its offset, and its size as a `size_t`.
pub record Span : Type 0 where
  pub off : ℕ
  pub len : ℕ

-- The bytes of a span that lies in the data.
abbrev pub bytes_of : Slice → Span → Slice
bytes_of data' m = take m.len (drop m.off data')

abbrev pub InRange : Slice → Span → Type 0
InRange data' m = m.off + m.len ≤ length data'

-- What `tryDecode` returns, and the `msg` that it sets.
pub record Decoded : Type 0 where
  pub ret : ℤ
  pub msg : Option Span

abbrev pub partial : Decoded
partial = record { ret = pos 0; msg = none }

abbrev pub found : ℕ → Span → Decoded
found n m = record { ret = pos n; msg = some m }

-- `data[i] == ch`, for an `i` in range
abbrev pub byte_is : Slice → ℕ → ℕ → Bool
byte_is s i ch = elim (get_elem? s i) [ none ↦ false | some c ↦ c == ch ]

-- The loop of `LineCodec::tryDecode`, at `i`, with the bytes from there on.
line_scan : Slice → ℕ → Slice → Decoded
line_scan data' i [] = partial
line_scan data' i (c ∷ rest) =
    let later = line_scan data' (i + 1) rest in
    if c == b'\n'
    then if ltb 0 i && byte_is data' (i - 1) b'\r'
      then found (i + 1) (record { off = 0; len = i - 1 })
      else found (i + 1) (record { off = 0; len = i })
    else later

-- `LineCodec::tryDecode` before what it returns becomes an `int`.
unfoldable pub line_find : Slice → Decoded
unfolding line_scan
line_find data' =
    if length data' == 1 && byte_is data' 0 0x04
    then found 1 (record { off = 0; len = length data' })
    else line_scan data' 0 data'

-- A `size_t` that is returned as an `int`.
abbrev pub int_of : ℤ → ℤ
int_of (pos n) = signed32 (n % 2 ^ 32)
int_of (negsuc n) = negsuc n

unfoldable pub line_decode : Slice → Decoded
unfolding line_find
line_decode data' = let r = line_find data' in record { ret = int_of r.ret; msg = r.msg }

unfoldable pub line_encode : Slice → Buffer → Buffer
line_encode msg buf = append (append buf msg) (codes "\r\n")

abbrev pub magic : Bytes
magic = codes "mBdT"

-- `int len = net::ntoh(*(int32_t *)(data.data() + 4))`
abbrev pub frame_length : Slice → ℤ
frame_length data' = signed32 (hton32 (le_word (take 4 (drop 4 data'))))

-- `(size_t) len`
abbrev pub to_size : ℤ → ℕ
to_size (pos n) = n
to_size (negsuc n) = 2 ^ 64 - suc n

unfoldable pub length_decode : Slice → Decoded
length_decode data' =
    if ltb (length data') 8
    then partial
    else let len = frame_length data' in
      if ltb_ℤ (pos (1024 * 1024)) len || not (equal (take 4 data') magic)
      then record { ret = negsuc 0; msg = none }
      else if not (ltb_ℤ (signed32 (length data' % 2 ^ 32)) (len +ℤ pos 8))
      then record { ret = len +ℤ pos 8; msg = some (record { off = 8; len = to_size len }) }
      else partial

-- `appendValue` copies the bytes of the swapped `int32_t`.
unfoldable pub length_encode : Slice → Buffer → Buffer
length_encode msg buf =
    append (append (append buf magic) (le_bytes (hton32 (length msg % 2 ^ 32)))) msg
