-- ===== src/Buffer.antt =====
-- handy/net.h and handy/net.cc: `Buffer`, a growing byte buffer. `buf` is the block that `buf_`
-- points to, `[]` for NULL; a new block is uninitialised in the source and zeros here. `size_t`
-- sums and differences wrap at 2 ^ 64. The copies into `Buffer &` are the returned values.
pub mod Block
pub mod Room
pub mod Contents
pub mod Refine
mod Tests
use handy_copy.Base.{
  ℕ, ◌+◌, ◌-◌, ◌*◌, ◌/◌, ◌%◌, ◌^◌, max, Bool, List, [], ◌∷◌, ltb, leb, ◌==◌, if◌then◌else◌, Bytes,
  length, replicate,
}
use Block.{range, write_at}

pub record Buffer : Type 0 where
  pub buf : Bytes
  pub b : ℕ
  pub e : ℕ
  pub cap : ℕ
  pub exp : ℕ

-- `size_t` arithmetic
abbrev pub add_size : ℕ → ℕ → ℕ
add_size x y = (x + y) % 2 ^ 64

abbrev pub sub_size : ℕ → ℕ → ℕ
sub_size x y = (x + 2 ^ 64 - y) % 2 ^ 64

-- `Buffer()`
abbrev pub new : Buffer
new = record { buf = []; b = 0; e = 0; cap = 0; exp = 512 }

unfoldable pub clear : Buffer → Buffer
clear s = record s { buf = []; b = 0; e = 0; cap = 0 }

abbrev pub size : Buffer → ℕ
size s = sub_size s.e s.b

abbrev pub space : Buffer → ℕ
space s = sub_size s.cap s.e

-- the bytes from `begin()` to `end()`, as `operator Slice` gives them
abbrev pub contents : Buffer → Bytes
contents s = range s.buf s.b s.e

unfoldable pub move_head : Buffer → Buffer
move_head s = record s { buf = write_at s.buf 0 (contents s); b = 0; e = sub_size s.e s.b }

unfoldable pub expand : Buffer → ℕ → Buffer
expand s len =
    let ncap = max s.exp (max (2 * s.cap % 2 ^ 64) (add_size (size s) len)) in
    record s {
      buf = write_at (replicate ncap 0) 0 (contents s);
      b = 0;
      e = sub_size s.e s.b;
      cap = ncap;
    }

-- `makeRoom(len)`; the pointer that it returns is `e` of the result.
unfoldable pub make_room : Buffer → ℕ → Buffer
make_room s len =
    if leb (add_size s.e len) s.cap
    then s
    else if ltb (add_size (size s) len) (s.cap / 2)
    then move_head s
    else expand s len

-- `makeRoom()`
unfoldable pub make_room_suggested : Buffer → Buffer
make_room_suggested s = if ltb (space s) s.exp then expand s 0 else s

-- `addSize(len)`, when the bytes have been written at `end()`: they are part of the model's step.
unfoldable pub fill : Buffer → Bytes → Buffer
fill s d = record s { buf = write_at s.buf s.e d; e = add_size s.e (length d) }

-- `allocRoom` and the `memcpy` into it.
unfoldable pub append : Buffer → Bytes → Buffer
append s d = fill (make_room s (length d)) d

unfoldable pub consume : Buffer → ℕ → Buffer
consume s len = let s' = record s { b = add_size s.b len } in if size s' == 0 then clear s' else s'

-- `absorb(buf)` for another buffer: the new `*this` and the new `buf`.
unfoldable pub absorb : Buffer → Buffer → Buffer × Buffer
absorb s o =
    if size s == 0
    then (record o { exp = s.exp }, record s { exp = o.exp })
    else (append s (contents o), clear o)

unfoldable pub set_suggest_size : Buffer → ℕ → Buffer
set_suggest_size s sz = record s { exp = sz }

-- `copyFrom`; the first argument is `b.buf_`, tested for NULL.
copy_block : Bytes → Buffer → Buffer
copy_block [] s = s
copy_block (_ ∷ _) s = record s { buf = write_at (replicate s.cap 0) s.b (contents s) }

-- The copy constructor and `operator=`.
unfoldable pub copy : Buffer → Buffer
unfolding copy_block
copy s = copy_block s.buf s
