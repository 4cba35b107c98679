-- ===== src/Conf.antt =====
-- handy/conf.h and handy/conf.cc: the parser of INI files and the look-up of values. A line is the
-- bytes that `fgets` gave, as a C string. `strtol` and `strtod` are not part of the model.
pub mod Scan
pub mod Lines
pub mod Lookup
pub mod Errors
mod Tests
use handy_copy.Slice.{Slice, is_space, skip_spaces}
use handy_copy.Base.{
  Bool, Bytes, List, Option, [], codes, drop, equal, false, if◌then◌else◌, leb, length, map, none,
  not, reverse, some, true, ℕ, ◌&&◌, ◌++◌, ◌+◌, ◌==◌, ◌||◌, ◌∷◌,
}

-- `::tolower` in the C locale.
abbrev pub tolower : ℕ → ℕ
tolower c = if leb b'A' c && leb c b'Z' then c + 32 else c

-- `makeKey`
unfoldable pub make_key : Bytes → Bytes → Bytes
make_key section name = map tolower (section ++ b'.' ∷ name)

-- `values_`
abbrev pub Values : Type 0
Values = List (Bytes × List Bytes)

unfoldable pub find : Bytes → Values → Option (List Bytes)
find k [] = none
find k ((j, vs) ∷ m) = if equal k j then some vs else find k m

-- `values_[key].push_back(value)`
unfoldable pub push_back : Bytes → Bytes → Values → Values
push_back k v [] = (k, v ∷ []) ∷ []
push_back k v ((j, vs) ∷ m) =
    let rest = push_back k v m in if equal k j then (j, vs ++ v ∷ []) ∷ m else (j, vs) ∷ rest

-- `back()`, of a list that is not empty
abbrev pub last : Bytes → List Bytes → Bytes
last default [] = default
last default (v ∷ vs) = last v vs

-- The values of an entry, of which there are none without it.
abbrev pub strings_of : Option (List Bytes) → List Bytes
strings_of none = []
strings_of (some vs) = vs

unfoldable pub get_strings : Values → Bytes → Bytes → List Bytes
get_strings values section name = strings_of (find (make_key section name) values)

unfoldable pub get : Values → Bytes → Bytes → Bytes → Bytes
get values section name default = elim (find (make_key section name) values) [
  | none ↦ default
  | some vs ↦ last default vs
]

abbrev pub one_of : Bytes → List Bytes → Bool
one_of v [] = false
one_of v (w ∷ ws) = equal v w || one_of v ws

unfoldable pub get_boolean : Values → Bytes → Bytes → Bool → Bool
get_boolean values section name default =
    let v = map tolower (get values section name []) in
    if one_of v (codes "true" ∷ codes "yes" ∷ codes "on" ∷ codes "1" ∷ [])
    then true
    else if one_of v (codes "false" ∷ codes "no" ∷ codes "off" ∷ codes "0" ∷ [])
    then false
    else default

-- `LineScanner`: the bytes from `p` on, up to the NUL, and `err`.
pub record Scanner : Type 0 where
  pub rest : Bytes
  pub err : Bool

abbrev pub start : Bytes → Scanner
start ln = record { rest = ln; err = false }

unfoldable pub skip_blanks : Scanner → Scanner
skip_blanks s = if s.err then s else record s { rest = skip_spaces s.rest }

-- `*p`, 0 at the end
abbrev pub head_or : Bytes → ℕ
head_or [] = 0
head_or (c ∷ s) = c

unfoldable pub peek_char : Scanner → ℕ × Scanner
peek_char s = let s' = skip_blanks s in (head_or s'.rest, s')

-- `skip(1)`, at a byte that is not the NUL
unfoldable pub skip_one : Scanner → Scanner
skip_one s = record s { rest = drop 1 s.rest }

-- `match(c)`
unfoldable pub match_char : ℕ → Scanner → Scanner
match_char c s =
    let s' = skip_blanks s in record { rest = drop 1 s'.rest; err = not (head_or s'.rest == c) }

-- `rstrip`
unfoldable pub rstrip : Bytes → Bytes
rstrip s = reverse (skip_spaces (reverse s))

-- The bytes before the first `c`, and those from there on.
unfoldable pub span_till : ℕ → Bytes → Bytes × Bytes
span_till c [] = ([], [])
span_till c (x ∷ s) = let (a, b) = span_till c s in if x == c then ([], x ∷ s) else (x ∷ a, b)

-- `consumeTill(c)`
unfoldable pub consume_till : ℕ → Scanner → Bytes × Scanner
consume_till c s =
    let s' = skip_blanks s in
    let (word, rest) = span_till c s'.rest in
    if s'.err
    then ([], s')
    else if head_or rest == c
    then (rstrip word, record s' { rest = rest })
    else ([], record s' { err = true })

-- The loop of `consumeTillEnd`.
unfoldable pub span_value : Bool → Bytes → Bytes × Bytes
span_value wasspace [] = ([], [])
span_value wasspace (x ∷ s) =
    let (a, b) = span_value (is_space x) s in
    if x == b';' || x == b'#' || wasspace then ([], x ∷ s) else (x ∷ a, b)

-- `consumeTillEnd`
unfoldable pub consume_till_end : Scanner → Bytes × Scanner
consume_till_end s =
    let s' = skip_blanks s in
    let (word, rest) = span_value false s'.rest in
    if s'.err then ([], s') else (rstrip word, record s' { rest = rest })

-- The state of the loop of `parse`.
pub record Parser : Type 0 where
  pub section : Bytes
  pub key : Bytes
  pub values : Values
  pub err : Bool

-- A line that starts a section; `s` is at the `[`.
unfoldable pub section_line : Scanner → Parser → Parser
section_line s p =
    let (name, s') = consume_till b']' (skip_one s) in
    record p { section = name; key = []; err = (match_char b']' s').err }

-- A line that goes on with a value.
unfoldable pub more_line : Scanner → Parser → Parser
more_line s p =
    if length p.key == 0
    then record p { err = true }
    else record p { values = push_back (make_key p.section p.key) (consume_till 0 s).0 p.values }

-- The value behind the `=` or `:`, for the key that was read.
unfoldable pub store_value : Bytes → Bool → Scanner → Parser → Parser
store_value key err s p = record p {
  key = key;
  err = err;
  values = push_back (make_key p.section key) (consume_till_end s).0 p.values;
}

-- A line with a name and a value.
unfoldable pub value_line : Scanner → Parser → Parser
value_line s p =
    let (key, s1) = consume_till b'=' s in
    let (c, s2) = peek_char s1 in
    if c == b'='
    then store_value key p.err (skip_one s2) p
    else let (key', s3) = consume_till b':' s in
      let s4 = match_char b':' s3 in store_value key' s4.err s4 p

-- One round of the loop of `parse`.
unfoldable pub parse_line : Bytes → Parser → Parser
parse_line ln p =
    let (c, s) = peek_char (start ln) in
    if c == b';' || c == b'#' || c == 0
    then p
    else if c == b'['
    then section_line s p
    else if is_space (head_or ln)
    then more_line s p
    else value_line s p

-- The loop of `parse`, with the number of the line before; the result is what `parse` returns.
unfoldable pub parse_lines : ℕ → List Bytes → Parser → ℕ × Parser
parse_lines lineno [] p = (0, p)
parse_lines lineno (ln ∷ lines) p =
    let p' = parse_line ln p in
    let later = parse_lines (lineno + 1) lines p' in if p'.err then (lineno + 1, p') else later

unfoldable pub parse : List Bytes → Values → ℕ × Parser
parse lines values =
    parse_lines 0 lines (record { section = []; key = []; values = values; err = false })
