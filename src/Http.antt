-- ===== src/Http.antt =====
-- handy/http.cc and http.h: `HttpMsg`, `HttpRequest` and `HttpResponse`. A buffer is its bytes, and
-- a call that changes them in place returns the new ones. `atoi` is of values that fit an `int`.
pub mod Headers
pub mod Decode
pub mod Request
pub mod Response
pub mod Server
pub mod Scan
pub mod Lines
pub mod Resume
pub mod Parts
pub mod Expect
pub mod Routes
pub mod Args
mod Tests
use Headers.{HeaderMap, find}
use handy_copy.Base.{Bool, Bytes, [], codes, false, if◌then◌else◌, length, ℕ, ◌==◌}

-- `HttpMsg::Result`
pub data Result : Type 0 where
  error complete not_complete continue_100 : Result

-- `HttpMsg`
pub record HttpMsg : Type 0 where
  pub headers : HeaderMap
  pub version : Bytes
  pub body : Bytes
  pub body2 : Bytes
  pub completed : Bool
  pub content_len : ℕ
  pub scanned : ℕ

-- `HttpMsg::clear`
abbrev pub clear_msg : HttpMsg
clear_msg = record {
  headers = [];
  version = codes "HTTP/1.1";
  body = [];
  body2 = [];
  completed = false;
  content_len = 0;
  scanned = 0;
}

-- `getHeader`
unfoldable pub get_header : HeaderMap → Bytes → Bytes
unfolding find
get_header headers n = find n headers

-- `getBody`
unfoldable pub get_body : HttpMsg → Bytes
get_body m = if length m.body2 == 0 then m.body else m.body2
