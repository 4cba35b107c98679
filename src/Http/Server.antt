-- ===== src/Http/Server.antt =====
-- `HttpConnPtr` and `HttpServer`: what a connection does with the bytes that arrive, and which callback
-- a request is given to. `C` is the type of the callbacks.
use handy_copy.Http.{Result, error, complete, not_complete, continue_100}
use handy_copy.Http.Request.{
  HttpRequest, RequestOutcome, clear_request, decode_request, encode_request,
}
use handy_copy.Http.Response.{
  HttpResponse, ResponseOutcome, clear_response, decode_response, encode_response,
}
use handy_copy.Http.Headers.{assign, lookup, or_else}
use handy_copy.Base.Int.{pos}
use handy_copy.Base.{
  Bool, Bytes, List, Option, [], codes, drop, if◌then◌else◌, none, some, true, ◌++◌, ◌∷◌,
}

-- The contents of `input_` and `output_`, and the `HttpContext`.
pub record HttpConn : Type 0 where
  pub is_client : Bool
  pub input : Bytes
  pub output : Bytes
  pub req : HttpRequest
  pub resp : HttpResponse

-- What `handleRead` does: nothing, `close`, a `send`, or the callback.
pub data Act : Type 0 where
  wait_more close call_back : Act
  send : Bytes → Act

-- "HTTP/1.1 100 Continue\n\r\n"
abbrev pub continue_text : Bytes
continue_text = codes "HTTP/1.1 100 Continue" ++ 10 ∷ 13 ∷ 10 ∷ []

abbrev pub request_act : Result → Act
request_act error = close
request_act continue_100 = send continue_text
request_act complete = call_back
request_act not_complete = wait_more

abbrev pub response_act : Result → Act
response_act error = close
response_act complete = call_back
response_act continue_100 = wait_more
response_act not_complete = wait_more

abbrev pub request_read : HttpConn → RequestOutcome → Option (HttpConn × Act)
request_read con (RequestOutcome.got d) =
    some (record con { req = d.request; input = d.buf }, request_act d.result)
request_read con RequestOutcome.failed = none
request_read con RequestOutcome.out_of_fuel = none

abbrev pub response_read : HttpConn → ResponseOutcome → Option (HttpConn × Act)
response_read con (ResponseOutcome.got d) =
    some (record con { resp = d.response; input = d.buf }, response_act d.result)
response_read con ResponseOutcome.failed = none
response_read con ResponseOutcome.out_of_fuel = none

-- `HttpConnPtr::handleRead`; `none` is an exception.
unfoldable pub handle_read : HttpConn → Option (HttpConn × Act)
unfolding decode_request decode_response
handle_read con =
    if con.is_client
    then response_read con (decode_response con.resp con.input true)
    else request_read con (decode_request con.req con.input true)

-- `clearData`, with `getByte`
unfoldable pub clear_data : HttpConn → HttpConn
clear_data con =
    if con.is_client
    then record con { input = drop con.resp.base.scanned con.input; resp = clear_response }
    else record con { input = drop con.req.base.scanned con.input; req = clear_request }

-- `sendRequest` and `sendResponse`, up to `sendOutput`.
unfoldable pub send_request : HttpConn → HttpRequest → HttpConn
unfolding encode_request clear_data
send_request con r = clear_data (record con { output = con.output ++ encode_request r })

unfoldable pub send_response : HttpConn → HttpResponse → HttpConn
unfolding encode_response clear_data
send_response con r = clear_data (record con { output = con.output ++ encode_response r })

-- `defcb_` of the constructor. `getResponse()` is a part of the connection, which stays as it is.
unfoldable pub default_reply : HttpConn → HttpConn
unfolding send_response
default_reply con =
    let r = record con.resp {
      status = pos 404;
      status_word = codes "Not Found";
      base = record con.resp.base { body = codes "Not Found" };
    } in
    send_response (record con { resp = r }) r

-- `cbs_` and `defcb_`
pub record HttpServer (C : Type 0) : Type 0 where
  pub cbs : List (Bytes × List (Bytes × C))
  pub defcb : C

module _ {C : Type 0} where
  -- `onRequest`, `onGet` and `onDefault`
  unfoldable pub on_request : Bytes → Bytes → C → HttpServer C → HttpServer C
  unfolding assign lookup
  on_request method uri cb s = record s {
    cbs = assign method (assign uri cb (or_else [] (lookup method s.cbs))) s.cbs;
  }

  unfoldable pub on_get : Bytes → C → HttpServer C → HttpServer C
  unfolding on_request
  on_get uri cb s = on_request (codes "GET") uri cb s

  unfoldable pub on_default : C → HttpServer C → HttpServer C
  on_default cb s = record s { defcb = cb }

  -- The callback that the constructor gives to `onHttpMsg`: which one it calls.
  unfoldable pub choose : HttpServer C → HttpRequest → C
  unfolding lookup
  choose s req = or_else s.defcb (lookup req.uri (or_else [] (lookup req.method s.cbs)))
