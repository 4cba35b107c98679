-- ===== src/Http/Headers.antt =====
-- `std::map<string, string>` in the order of its keys, other maps with texts as keys,
-- and the numbers in a text: `atoi`, `%lu`, `%d`
-- and `%s` of `snprintf`.
use handy_copy.Slice.{skip_spaces, less, same}
use handy_copy.Base.Int.{ℤ, pos, negsuc, sub_ℕ}
use handy_copy.Base.{
  Bool, Bytes, List, [], if◌then◌else◌, leb, ltb, suc, take, zero, ℕ, ◌%◌, ◌&&◌, ◌*◌, ◌++◌, ◌+◌,
  ◌-◌, ◌/◌, ◌==◌, ◌∷◌, Option, none, some,
}

abbrev pub HeaderMap : Type 0
HeaderMap = List (Bytes × Bytes)

-- A map with texts as keys.
module _ {V : Type 0} where
  abbrev pub or_else : V → Option V → V
  or_else d none = d
  or_else d (some v) = v

  unfoldable pub lookup : Bytes → List (Bytes × V) → Option V
  unfolding same
  lookup n [] = none
  lookup n ((k, v) ∷ m) = if same n k then some v else lookup n m

  -- `m[n] = v`
  unfoldable pub assign : Bytes → V → List (Bytes × V) → List (Bytes × V)
  unfolding same less
  assign n v [] = (n, v) ∷ []
  assign n v ((k, w) ∷ m) =
      let rest = assign n v m in
      if same n k then (n, v) ∷ m else if less n k then (n, v) ∷ (k, w) ∷ m else (k, w) ∷ rest

-- `getValueFromMap_`
unfoldable pub find : Bytes → HeaderMap → Bytes
unfolding lookup
find n m = or_else [] (lookup n m)

abbrev pub is_digit : ℕ → Bool
is_digit c = leb b'0' c && leb c b'9'

abbrev pub digits : ℕ → Bytes → ℕ
digits acc [] = acc
digits acc (c ∷ s) = if is_digit c then digits (10 * acc + (c - b'0')) s else acc

abbrev pub signed_digits : Bytes → ℤ
signed_digits [] = pos 0
signed_digits (c ∷ s) =
    if c == b'-'
    then sub_ℕ 0 (digits 0 s)
    else if c == b'+'
    then pos (digits 0 s)
    else pos (digits 0 (c ∷ s))

-- `atoi`
unfoldable pub atoi : Bytes → ℤ
unfolding skip_spaces
atoi s = signed_digits (skip_spaces s)

-- The decimal digits of a number, on fuel that is at least the number.
abbrev pub decimal_on : ℕ → ℕ → Bytes
decimal_on zero n = (b'0' + n) ∷ []
decimal_on (suc fuel) n =
    let front = decimal_on fuel (n / 10) in
    if ltb n 10 then (b'0' + n) ∷ [] else front ++ (b'0' + n % 10) ∷ []

-- `%lu`
unfoldable pub decimal : ℕ → Bytes
decimal n = decimal_on n n

-- `%d`
unfoldable pub decimal_ℤ : ℤ → Bytes
unfolding decimal
decimal_ℤ (pos n) = decimal n
decimal_ℤ (negsuc n) = b'-' ∷ decimal (suc n)

-- `%s` of `c_str()`, up to the first zero byte.
abbrev pub c_str : Bytes → Bytes
c_str [] = []
c_str (c ∷ s) = if c == 0 then [] else c ∷ c_str s

-- What `snprintf` leaves in a buffer of `size` bytes.
unfoldable pub snprintf : ℕ → Bytes → Bytes
snprintf size s = take (size - 1) s
