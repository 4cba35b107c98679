-- ===== src/Http/Response.antt =====
-- `HttpResponse`
use handy_copy.Http.{HttpMsg, Result, clear_msg}
use handy_copy.Http.Headers.{atoi, decimal_ℤ, c_str, snprintf}
use handy_copy.Http.Request.{rest_text, line_break}
use handy_copy.Http.Decode.{Decoding, Outcome, returned, thrown, try_decode_msg}
use handy_copy.Slice.{Slice, eat_word, trim_space}
use handy_copy.Base.Int.{ℤ, pos}
use handy_copy.Base.{Bool, Bytes, codes, drop, if◌then◌else◌, length, ◌++◌, ◌+◌, ◌-◌, ◌==◌, ◌∷◌}

pub record HttpResponse : Type 0 where
  pub base : HttpMsg
  pub status : ℤ
  pub status_word : Bytes

-- `HttpResponse::clear`
abbrev pub clear_response : HttpResponse
clear_response = record { base = clear_msg; status = pos 200; status_word = codes "OK" }

-- `setStatus` and `setNotFound`
unfoldable pub set_status : HttpResponse → ℤ → Bytes → HttpResponse
set_status r st msg = record r {
  status = st;
  status_word = msg;
  base = record r.base { body = msg };
}

unfoldable pub set_not_found : HttpResponse → HttpResponse
unfolding set_status
set_not_found r = set_status r (pos 404) (codes "Not Found")

pub record ResponseDecoding : Type 0 where
  pub result : Result
  pub response : HttpResponse
  pub buf : Bytes

pub data ResponseOutcome : Type 0 where
  got : ResponseDecoding → ResponseOutcome
  failed out_of_fuel : ResponseOutcome

-- The words of the first line, which is at the start of `buf`; `atoi` reads on from its second word.
abbrev pub with_status_line : HttpResponse → Slice → Bytes → HttpResponse
with_status_line r line1 buf =
    let (version, rest1) = eat_word line1 in
    let (number, rest2) = eat_word rest1 in
    record r {
      base = record r.base { version = version };
      status = atoi (drop (length line1 - (length number + length rest2)) buf);
      status_word = trim_space rest2;
    }

unfoldable pub read_status_line : HttpResponse → Decoding → ResponseOutcome
unfolding eat_word trim_space atoi
read_status_line r d =
    let r1 = record r { base = d.msg } in
    got (record {
      result = d.result;
      response = if length d.line1 == 0 then r1 else with_status_line r1 d.line1 d.buf;
      buf = d.buf;
    })

unfoldable pub read_response : HttpResponse → Outcome → ResponseOutcome
unfolding read_status_line
read_response r (returned d) = read_status_line r d
read_response r thrown = ResponseOutcome.failed
read_response r Outcome.out_of_fuel = ResponseOutcome.out_of_fuel

-- `HttpResponse::tryDecode`
unfoldable pub decode_response : HttpResponse → Bytes → Bool → ResponseOutcome
unfolding read_response try_decode_msg
decode_response r buf copy = read_response r (try_decode_msg r.base buf copy)

-- `HttpResponse::encode`: the bytes that are appended, of which it returns the number.
unfoldable pub encode_response : HttpResponse → Bytes
unfolding rest_text snprintf decimal_ℤ
encode_response r =
    snprintf 1024 (
      c_str r.base.version ++ b' ' ∷ decimal_ℤ r.status ++ b' ' ∷ c_str r.status_word ++ line_break)
    ++ rest_text r.base
