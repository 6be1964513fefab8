-- ===== src/Messages.antt =====
-- Messages of proxy/http_parser.py: requests and responses as bytes, the parsers over bytes, the
-- functions of headers, the choice of a body's framing, and error responses.
pub mod ErrorResponse
pub mod Forwarding
mod Tests
use nginx_remake_v.Prelude.{
  ℕ, zero, suc, ◌+◌, ◌-◌, ◌*◌, ◌/◌, ◌%◌, ◌≤◌, ◌<◌, min, max, ◌≡◌, refl, sym, ap, ◌∙◌, subst, ◌≢◌,
  ◌↔◌, ◌⊎◌, inl, inr, Bool, true, false, not, ◌&&◌, ◌||◌, Option, none, some, List, [], ◌∷◌, ◌++◌,
  map, append-nil, append_assoc, arith, ap₂, ltb, leb, eqb, if◌then◌else◌, ltb→lt, leb→le, eqb_iff,
  Bool-cases, Option-cases, length, get_elem?, take, drop, length-append, take-append-drop,
  length-take, length-drop, Text, Bytes, codes, text_eq, text_eq_iff, Key, ◌==◌, number_keys,
  text_keys,
}
use nginx_remake_v.Prelude.Dict.{
  Dict, lookup, insert, lookup-insert, lookup-insert_self, lookup-insert_ne,
}
use nginx_remake_v.Exec.{
  Exception, timeout_error, body_streamer_error, connection_refused, connection_reset, os_error,
  runtime_error, value_error, incomplete_read, index_error, Result, ok, err, spinning, Coro, pure,
}
use nginx_remake_v.Stream
use nginx_remake_v.Stream.{StreamWriter}
use nginx_remake_v.Python.{Unicode, ℤ, pos, negsuc, int, isdigit, show, join_lines, split_lines}
use nginx_remake_v.Python.Utf8.{encode, decode}
use nginx_remake_v.Headers.{
  HttpRequest, header_lines, request_lines, words, parse_headers, build_request,
}
use nginx_remake_v.BodyStreamer.{Link, stream_identity, stream_to_eof}
use nginx_remake_v.BodyStreamer.Chunked.{stream_chunked}

pub record HttpResponse : Type 0 where
  pub version : Text
  pub status_code : ℕ
  pub reason : Text
  pub headers : Dict Text Text

-- What `encode` gives, or its `UnicodeEncodeError`, a `ValueError`.
unfoldable pub encoded : Option Bytes → Result Bytes
encoded none = err value_error
encoded (some b) = ok b

-- `_headers_to_bytes`
unfoldable pub headers_to_bytes : List Text → Result Bytes
unfolding encoded
headers_to_bytes lines = encoded (encode (join_lines (lines ++ codes "\r\n" ∷ [])))

-- `HttpRequest.to_bytes`
unfoldable pub request_to_bytes : HttpRequest → Result Bytes
request_to_bytes r = headers_to_bytes (request_lines r)

unfoldable pub response_lines : HttpResponse → List Text
response_lines r =
    (r.version ++ (codes " " ++ (show r.status_code ++ (codes " " ++ r.reason))))
    ∷ header_lines r.headers

-- `HttpResponse.to_bytes`
unfoldable pub response_to_bytes : HttpResponse → Result Bytes
response_to_bytes r = headers_to_bytes (response_lines r)

-- The lines of the headers' bytes, or a `UnicodeDecodeError`, and what a parser builds of them.
unfoldable pub from_bytes : {M : Type 0} → (List Text → Result M) → Bytes → Result M
from_bytes build b = elim (decode b) [ none ↦ err value_error | some t ↦ build (split_lines t) ]

-- `d.get(k, "")`
abbrev pub get_or_empty : Text → Dict Text Text → Text
get_or_empty k d = elim (lookup k d) [ none ↦ [] | some v ↦ v ]

module _ (u : Unicode) where
  -- `int(status_raw) if status_raw.isdigit() else 0`; the digits of `isdigit` have no sign.
  unfoldable pub status_of : Text → Result ℕ
  status_of raw = elim (isdigit u raw) [
    | true ↦ elim (int u raw) [
      | none ↦ err value_error
      | some (pos n) ↦ ok n
      | some (negsuc n) ↦ ok 0
    ]
    | false ↦ ok 0
  ]

  response_of : Text → Text → List Text → Result ℕ → Result HttpResponse
  response_of version reason lines (ok n) = ok (record {
    version = version;
    status_code = n;
    reason = reason;
    headers = parse_headers u.lower lines;
  })
  response_of version reason lines (err e) = err e
  response_of version reason lines spinning = spinning

  -- `HttpResponseParser._build_metadata`; without a second word the status is that of "0".
  unfoldable pub build_response : List Text → Result HttpResponse
  unfolding response_of
  build_response [] = err index_error
  build_response (line ∷ lines) =
      let (version, raw, reason) = words line in response_of version reason lines (status_of raw)

  unfoldable pub parse_request : Bytes → Result HttpRequest
  parse_request b = from_bytes (build_request u.lower) b

  unfoldable pub parse_response : Bytes → Result HttpResponse
  parse_response b = from_bytes build_response b

  unfoldable pub safe_method : Text → Bool
  safe_method m =
      let up = u.upper m in
      text_eq up (codes "GET")
      || (text_eq up (codes "HEAD") || (text_eq up (codes "OPTIONS") || text_eq up (codes "TRACE")))

  unfoldable pub is_connection_close : Dict Text Text → Bool
  is_connection_close headers =
      text_eq (u.lower (get_or_empty (codes "connection") headers)) (codes "close")

  -- `_parse_content_length`; `none` stands for no header and for a `ValueError`.
  unfoldable pub parse_content_length : Dict Text Text → Option ℤ
  parse_content_length headers = elim (lookup (codes "content-length") headers) [
    | none ↦ none
    | some raw ↦ int u raw
  ]

  unfoldable pub is_chunked : Dict Text Text → Bool
  is_chunked headers =
      text_eq (u.lower (get_or_empty (codes "transfer-encoding") headers)) (codes "chunked")

  -- The common part of the two functions below; a negative length ends the loop before its first round.
  unfoldable pub stream_body : Coro Link ℕ → ℕ → ℕ → Dict Text Text → Coro Link ℕ
  stream_body otherwise fuel chunk_size headers = elim (parse_content_length headers) [
    | some (pos n) ↦ stream_identity chunk_size n
    | some (negsuc n) ↦ pure 0
    | none ↦ elim (is_chunked headers) [ true ↦ stream_chunked fuel chunk_size | false ↦ otherwise ]
  ]

  unfoldable pub stream_request : ℕ → ℕ → Dict Text Text → Coro Link ℕ
  stream_request fuel chunk_size headers = stream_body (pure 0) fuel chunk_size headers

  unfoldable pub stream_response : ℕ → ℕ → Dict Text Text → Coro Link ℕ
  stream_response fuel chunk_size headers =
      stream_body (stream_to_eof fuel chunk_size) fuel chunk_size headers

-- The reason phrases of `send_error_response`.
unfoldable pub reason_of : ℕ → Text
reason_of code =
    if eqb code 404
    then codes "Not Found"
    else if eqb code 429
    then codes "Too Many Requests"
    else if eqb code 500
    then codes "Internal Server Error"
    else if eqb code 502
    then codes "Bad Gateway"
    else if eqb code 503
    then codes "Service Unavailable"
    else if eqb code 504
    then codes "Gateway Timeout"
    else show code

unfoldable pub error_body : ℕ → Bytes
error_body code = show code ++ (codes " " ++ reason_of code)

-- The text before the body; it is ASCII, and its own encoding.
unfoldable pub error_head : ℕ → Bytes
error_head code =
    codes "HTTP/1.1 "
    ++ (show code
        ++ (codes " "
            ++ (reason_of code
                ++ (codes "\r\nContent-Type: text/plain; charset=utf-8\r\nContent-Length: "
                    ++ (show (length (error_body code)) ++ codes "\r\nConnection: close")))))

unfoldable pub error_response : ℕ → Bytes
error_response code = error_head code ++ (codes "\r\n\r\n" ++ error_body code)

-- What `suppress(OSError, ConnectionError)` holds back: `OSError` and its subclasses, `TimeoutError`
-- among them.
abbrev pub is_os_error : Exception → Bool
is_os_error timeout_error = true
is_os_error body_streamer_error = false
is_os_error connection_refused = true
is_os_error connection_reset = true
is_os_error (os_error n) = true
is_os_error runtime_error = false
is_os_error value_error = false
is_os_error incomplete_read = false
is_os_error index_error = false

after_drain : ℕ → Result (Unit {0}) × StreamWriter → Result ℕ × StreamWriter
after_drain n (ok _, w) = (ok n, w)
after_drain n (err e, w) = (if is_os_error e then ok n else err e, w)
after_drain n (spinning, w) = (spinning, w)

unfoldable pub send_error_response : ℕ → Coro StreamWriter ℕ
unfolding after_drain
send_error_response code w =
    after_drain (length (error_response code)) (Stream.drain (Stream.write (error_response code) w))
