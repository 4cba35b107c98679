-- ===== src/Slice.antt =====
-- handy/slice.h: `Slice`, a view of bytes that it does not own. A slice is modelled by the bytes
-- from `pb_` to `pe_`; moving a pointer drops bytes at that end. A method that returns the eaten
-- part beside moving `pb_` returns the pair of the eaten slice and the new `*this`.
pub mod Words
pub mod Order
pub mod Split
mod Tests
use Prim.Native.Nat.{compare as compare_ℕ, Ordering}
use handy_copy.Base.{
  ℕ, zero, suc, ◌-◌, Bool, true, false, ◌&&◌, ◌||◌, Option, none, some, List, [], ◌∷◌, ◌++◌,
  reverse, ltb, leb, ◌==◌, if◌then◌else◌, Bytes, length, take, drop, equal,
}

abbrev pub Slice : Type 0
Slice = Bytes

-- `isspace` of the C locale: 9 to 13 and 32.
unfoldable pub is_space : ℕ → Bool
is_space c = c == 32 || (leb 9 c && leb c 13)

-- `while (b < pe_ && isspace(*b)) b++;`
unfoldable pub skip_spaces : Slice → Slice
skip_spaces [] = []
skip_spaces (c ∷ s) = if is_space c then skip_spaces s else c ∷ s

-- `while (e < pe_ && !isspace(*e)) e++;`, as the bytes passed and the bytes ahead
unfoldable pub span_word : Slice → Slice × Slice
span_word [] = ([], [])
span_word (c ∷ s) = let (w, rest) = span_word s in if is_space c then ([], c ∷ s) else (c ∷ w, rest)

unfoldable pub eat_word : Slice → Slice × Slice
unfolding skip_spaces span_word is_space
eat_word s = span_word (skip_spaces s)

abbrev pub is_line_end : ℕ → Bool
is_line_end c = c == b'\n' || c == b'\r'

unfoldable pub eat_line : Slice → Slice × Slice
eat_line [] = ([], [])
eat_line (c ∷ s) =
    let (l, rest) = eat_line s in if is_line_end c then ([], c ∷ s) else (c ∷ l, rest)

-- `none` where `sz` would take `pb_` past `pe_`.
unfoldable pub eat : ℕ → Slice → Option (Slice × Slice)
eat sz s = if leb sz (length s) then some (take sz s, drop sz s) else none

-- `sub(boff, -back)`
unfoldable pub sub : ℕ → ℕ → Slice → Slice
sub boff back s = drop boff (take (length s - back) s)

-- The second loop walks from the end, which is the front of the reversed bytes.
unfoldable pub trim_space : Slice → Slice
unfolding skip_spaces is_space
trim_space s = reverse (skip_spaces (reverse (skip_spaces s)))

unfoldable pub starts_with : Slice → Slice → Bool
starts_with s x = leb (length x) (length s) && equal (take (length x) s) x

unfoldable pub end_with : Slice → Slice → Bool
end_with s x = leb (length x) (length s) && equal (drop (length s - length x) s) x

-- The sign of `memcmp(a, b, n)`: that of the first pair of bytes that differ.
unfoldable pub memcmp : ℕ → Bytes → Bytes → Ordering
memcmp zero a b = Ordering.eq
memcmp (suc n) (x ∷ a) (y ∷ b) =
    let later = memcmp n a b in elim (compare_ℕ x y) [ Ordering.eq ↦ later | other ↦ other ]
memcmp (suc n) _ _ = Ordering.eq

-- Sizes are below 2 ^ 31, so that `min_len` fits its `int`.
unfoldable pub compare : Slice → Slice → Ordering
unfolding memcmp
compare s b =
    let sz = length s in
    let bsz = length b in
    elim (memcmp (if ltb sz bsz then sz else bsz) s b) [
      | Ordering.eq ↦
          if ltb sz bsz then Ordering.lt else if ltb bsz sz then Ordering.gt else Ordering.eq
      | other ↦ other
    ]

-- `operator<` and `operator==`
unfoldable pub less : Slice → Slice → Bool
less x y = elim (compare x y) [ Ordering.lt ↦ true | _ ↦ false ]

unfoldable pub same : Slice → Slice → Bool
same x y = length x == length y && equal x y

-- The loop of `split`: `piece` is the bytes from `pb` to `p`, and `r` the vector.
unfoldable pub split_loop : ℕ → Slice → List Slice → Slice → Slice × List Slice
split_loop ch piece r [] = (piece, r)
split_loop ch piece r (c ∷ s) =
    let cut = c == ch in
    split_loop ch (if cut then [] else piece ++ c ∷ []) (if cut then r ++ piece ∷ [] else r) s

unfoldable pub split : ℕ → Slice → List Slice
unfolding split_loop
split ch [] = []
split ch (c ∷ s) = let (piece, r) = split_loop ch [] [] (c ∷ s) in r ++ piece ∷ []
