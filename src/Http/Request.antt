-- ===== src/Http/Request.antt =====
-- `HttpRequest`
use handy_copy.Http.{HttpMsg, Result, clear_msg, error, get_body}
use handy_copy.Http.Headers.{HeaderMap, assign, decimal, c_str, snprintf, find}
use handy_copy.Http.Decode.{Decoding, Outcome, returned, thrown, try_decode_msg}
use handy_copy.Slice.{Slice, eat_word}
use handy_copy.Base.{
  Bool, Bytes, Option, [], codes, if◌then◌else◌, length, none, not, some, suc, true, zero, ℕ, ◌++◌,
  ◌==◌, ◌||◌, ◌∷◌,
}

pub record HttpRequest : Type 0 where
  pub base : HttpMsg
  pub args : HeaderMap
  pub method : Bytes
  pub uri : Bytes
  pub query_uri : Bytes

-- `HttpRequest::clear`
abbrev pub clear_request : HttpRequest
clear_request = record {
  base = clear_msg;
  args = [];
  method = codes "GET";
  uri = [];
  query_uri = [];
}

-- `getArg`
unfoldable pub get_arg : HttpRequest → Bytes → Bytes
get_arg r n = find n r.args

-- The bytes before the first of two, and the others.
unfoldable pub span_till_any : ℕ → ℕ → Slice → Slice × Slice
span_till_any a b [] = ([], [])
span_till_any a b (c ∷ s) =
    let (front, rest) = span_till_any a b s in
    if c == a || c == b then ([], c ∷ s) else (c ∷ front, rest)

-- `if (c < qs.size() && qs[c] == ch) c++;`
abbrev pub skip_char : ℕ → Slice → Slice
skip_char ch [] = []
skip_char ch (c ∷ s) = if c == ch then s else c ∷ s

-- A round of the loop on the query: the arguments, and what is left of the query.
unfoldable pub one_arg : HeaderMap → Slice → HeaderMap × Slice
unfolding span_till_any assign
one_arg args qs =
    let (key, after_key) = span_till_any b'=' b'&' qs in
    let (value, after_value) = span_till_any b'&' b'&' (skip_char b'=' after_key) in
    (if length key == 0 then args else assign key value args, skip_char b'&' after_value)

-- The loop, on fuel; `none` if it is used up.
unfoldable pub parse_args : ℕ → HeaderMap → Slice → Option HeaderMap
unfolding one_arg
parse_args n args [] = some args
parse_args zero args (c ∷ qs) = none
parse_args (suc n) args (c ∷ qs) =
    let (more, rest) = one_arg args (c ∷ qs) in parse_args n more rest

-- The loop on `query_uri`: the bytes before the first '?', and those behind it, if there is one.
unfoldable pub cut_query : Bytes → Bytes × Option Bytes
cut_query [] = ([], none)
cut_query (c ∷ s) =
    let (front, qs) = cut_query s in if c == b'?' then ([], some s) else (c ∷ front, qs)

abbrev pub with_args : HttpRequest → Bytes → Option HeaderMap → Option HttpRequest
with_args r front none = none
with_args r front (some args) = some (record r { uri = front; args = args })

unfoldable pub with_query : HttpRequest → Bytes × Option Bytes → Option HttpRequest
unfolding parse_args
with_query r (front, none) = some (record r { uri = front })
with_query r (front, some qs) = with_args r front (parse_args (length qs) r.args qs)

-- The words of the first line.
abbrev pub with_line : HttpRequest → Slice → HttpRequest
with_line r line1 =
    let (method, rest1) = eat_word line1 in
    let (query_uri, rest2) = eat_word rest1 in
    record r {
      method = method;
      query_uri = query_uri;
      base = record r.base { version = (eat_word rest2).0 };
    }

-- `query_uri.size() == 0 || query_uri[0] != '/'`
abbrev pub is_bad_uri : Bytes → Bool
is_bad_uri [] = true
is_bad_uri (c ∷ s) = not (c == b'/')

pub record RequestDecoding : Type 0 where
  pub result : Result
  pub request : HttpRequest
  pub buf : Bytes

-- `failed` is an exception.
pub data RequestOutcome : Type 0 where
  got : RequestDecoding → RequestOutcome
  failed out_of_fuel : RequestOutcome

unfoldable pub finish_request : Result → Bytes → Option HttpRequest → RequestOutcome
finish_request result buf none = RequestOutcome.out_of_fuel
finish_request result buf (some r) = got (record { result = result; request = r; buf = buf })

-- The part from `if (ln1.size())` on.
unfoldable pub read_line : HttpRequest → Decoding → RequestOutcome
unfolding finish_request with_query cut_query eat_word
read_line r d =
    let r1 = record r { base = d.msg } in
    if length d.line1 == 0
    then got (record { result = d.result; request = r1; buf = d.buf })
    else let r2 = with_line r1 d.line1 in
      if is_bad_uri r2.query_uri
      then got (record { result = error; request = r2; buf = d.buf })
      else finish_request d.result d.buf (with_query r2 (cut_query r2.query_uri))

unfoldable pub read_outcome : HttpRequest → Outcome → RequestOutcome
unfolding read_line
read_outcome r (returned d) = read_line r d
read_outcome r thrown = failed
read_outcome r Outcome.out_of_fuel = RequestOutcome.out_of_fuel

-- `HttpRequest::tryDecode`
unfoldable pub decode_request : HttpRequest → Bytes → Bool → RequestOutcome
unfolding read_outcome try_decode_msg
decode_request r buf copy = read_outcome r (try_decode_msg r.base buf copy)

-- "\r\n"
abbrev pub line_break : Bytes
line_break = 13 ∷ 10 ∷ []

-- The lines that `encode` writes behind the first one, and the body.
abbrev pub header_text : HeaderMap → Bytes
header_text [] = []
header_text ((k, v) ∷ m) = k ++ codes ": " ++ v ++ line_break ++ header_text m

unfoldable pub rest_text : HttpMsg → Bytes
unfolding snprintf decimal get_body
rest_text m =
    header_text m.headers
    ++ codes "Connection: Keep-Alive"
    ++ line_break
    ++ snprintf 1024 (codes "Content-Length: " ++ decimal (length (get_body m)) ++ line_break)
    ++ line_break
    ++ get_body m

-- `HttpRequest::encode`: the bytes that are appended, of which it returns the number.
unfoldable pub encode_request : HttpRequest → Bytes
unfolding rest_text snprintf
encode_request r =
    snprintf 4096
      (c_str r.method ++ b' ' ∷ c_str r.query_uri ++ b' ' ∷ c_str r.base.version ++ 10 ∷ 10 ∷ [])
    ++ rest_text r.base
