-- ===== src/Http/Tests.antt =====
-- Requests that come in two parts, and what a server does with them.
use handy_copy.Http.{not_complete, clear_msg, get_header}
use handy_copy.Http.Headers.{HeaderMap, atoi}
use handy_copy.Http.Decode.{thrown, try_decode_msg}
use handy_copy.Http.Request.{
  HttpRequest, RequestDecoding, RequestOutcome, clear_request, decode_request, parse_args,
}
use handy_copy.Http.Response.{clear_response}
use handy_copy.Http.Server.{HttpConn, HttpServer, choose, default_reply, handle_read, on_request}
use handy_copy.Http.Expect.{handle_read-NoContinue, NoContinue}
use handy_copy.Http.Args.{parse_args-render_args, parse_args_ends, render_args, store_args}
use handy_copy.Http.Parts.{decode_request_parts}
use handy_copy.Http.Routes.{choose-on_request}
use handy_copy.Base.Int.{pos}
use handy_copy.Slice.{same}
use handy_copy.Base.{
  Bytes, List, [], arith, codes, false, if◌then◌else◌, refl, some, true, ℕ, ◌&&◌, ◌++◌, ◌∷◌, ◌≡◌,
}

-- "\r\n"
abbrev crlf : Bytes
crlf = 13 ∷ 10 ∷ []

abbrev first_part : Bytes
first_part =
    codes "POST /a?x=1 HTTP/1.1" ++ crlf ++ codes "Content-Length: 5" ++ crlf ++ crlf ++ codes "he"

abbrev got_of : RequestOutcome → RequestDecoding
got_of (RequestOutcome.got z) = z
got_of _ = record { result = not_complete; request = clear_request; buf = [] }

abbrev after_first : RequestDecoding
after_first = got_of (decode_request clear_request first_part true)

first_waits : after_first.result ≡ not_complete
unfolding decode_request atoi get_header
first_waits = refl

decode_request_parts_example :
    decode_request after_first.request (after_first.buf ++ codes "llo") true
    ≡ decode_request clear_request (first_part ++ codes "llo") true
unfolding decode_request atoi get_header
decode_request_parts_example =
    decode_request_parts clear_request first_part (codes "llo") true after_first refl refl refl

abbrev server_conn : Bytes → HttpConn
server_conn input = record {
  is_client = false;
  input = input;
  output = [];
  req = clear_request;
  resp = clear_response;
}

abbrev expecting : Bytes
expecting =
    codes "POST /a HTTP/1.1"
    ++ crlf
    ++ codes "Expect: 100-continue"
    ++ crlf
    ++ codes "Content-Length: 5"
    ++ crlf
    ++ crlf

handle_read-NoContinue_example : NoContinue (handle_read (server_conn expecting))
handle_read-NoContinue_example = handle_read-NoContinue (server_conn expecting) refl tt

-- A negative length ends in an exception.
negative :
    try_decode_msg clear_msg
      (codes "GET / HTTP/1.1" ++ crlf ++ codes "Content-Length: -5" ++ crlf ++ crlf)
      true
    ≡ thrown
unfolding try_decode_msg atoi get_header
negative = refl

-- A 404 stays in the response of the connection.
stays_not_found : (default_reply (server_conn [])).resp.status ≡ pos 404
unfolding default_reply
stays_not_found = refl

abbrev no_routes : HttpServer ℕ
no_routes = record { cbs = []; defcb = 0 }

abbrev to_a : HttpRequest
to_a = record clear_request { uri = codes "/a" }

choose-on_request_example : choose (on_request (codes "GET") (codes "/a") 7 no_routes) to_a ≡ (
    if same to_a.method (codes "GET") && same to_a.uri (codes "/a")
    then 7
    else choose no_routes to_a)
choose-on_request_example = choose-on_request no_routes (codes "GET") (codes "/a") 7 to_a

abbrev two_args : List (Bytes × Bytes)
two_args = (codes "x", codes "1=2") ∷ (codes "y", []) ∷ []

parse_args-render_args_example :
    parse_args 8 [] (render_args two_args) ≡ some (store_args [] two_args)
parse_args-render_args_example =
    parse_args-render_args 8 [] two_args
      ((refl, (refl, tt), (refl, (refl, (refl, tt)))), ((refl, (refl, tt), tt), tt)) (omega arith)

parse_args_ends_example : (found : HeaderMap) × (parse_args 4 [] (codes "=&x&") ≡ some found)
parse_args_ends_example = parse_args_ends 4 [] (codes "=&x&") (omega arith)
