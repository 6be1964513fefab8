-- ===== src/BodyStreamer/Tests.antt =====
-- Bodies forwarded on concrete streams.
use nginx_remake_v.Prelude.{
  ◌≡◌, refl, false, List, [], ◌∷◌, arith, length, Bytes, codes, text_eq_iff, number_keys, text_keys,
}
use nginx_remake_v.Exec.{ok, spinning}
use nginx_remake_v.Stream
use nginx_remake_v.Stream.{StreamReader, StreamWriter, Arrival, chunk, stall}
use nginx_remake_v.BufferedReader
use nginx_remake_v.BufferedReader.{UnreadableStreamReader}
use nginx_remake_v.BufferedReader.Laws.{content}
use nginx_remake_v.BodyStreamer.{
  Link, round, recv, forward, send, flush, stream_identity, stream_to_eof,
}
use nginx_remake_v.BodyStreamer.Round.{Forwards, IsCalm}
use nginx_remake_v.BodyStreamer.Identity.{
  Completes, Exact, stream_identity-Forwards, stream_identity-Completes,
}
use nginx_remake_v.BodyStreamer.Eof.{stream_to_eof-Exact}
use nginx_remake_v.BodyStreamer.Chunked.{chunk_size_of, stream_chunked}
use nginx_remake_v.BodyStreamer.Chunked.Message.{Message, IsMessage, stream_chunked-Exact}
use nginx_remake_v.BodyStreamer.Chunked.Spin.{stream_chunked-spins}

abbrev link : Bytes → List Arrival → Link
link back as' = record {
  reader = record { inner = record { buffer = []; coming = as' }; unread_buffer = back ∷ [] };
  writer = record { written = []; closing = false; drains = [] };
}

-- Two bytes were put back; three more come; then the network falls silent.
abbrev stalling : Link
stalling = link (codes "ab") (chunk (codes "cde") ∷ stall ∷ [])

abbrev short_body : Link
short_body = link (codes "ab") (chunk (codes "cde") ∷ [])

identity_runs : (stream_identity 2 4 stalling).0 ≡ ok 4
unfolding stream_identity round recv forward send flush BufferedReader.read Stream.read
    Stream.await_data Stream.write Stream.drain
identity_runs = refl

stream_identity-Forwards_example : Forwards 0 4 4 stalling (stream_identity 2 4 stalling)
stream_identity-Forwards_example = stream_identity-Forwards 2 4 stalling (omega arith) refl

short_body-IsCalm : IsCalm short_body
short_body-IsCalm = record { quiet = tt; shut = refl; drained = refl }

stream_identity-Completes_example : Completes 9 short_body (stream_identity 2 9 short_body)
stream_identity-Completes_example =
    stream_identity-Completes 2 9 short_body (omega arith) short_body-IsCalm

stream_to_eof-Exact_example :
    Exact short_body
      (content short_body.reader)
      []
      (length (content short_body.reader))
      (stream_to_eof 6 2 short_body)
unfolding BufferedReader.join
stream_to_eof-Exact_example =
    stream_to_eof-Exact 2 6 short_body (omega arith) short_body-IsCalm (omega arith)

abbrev message : Message
message = record {
  chunks = record { line = codes "3;x=1\r\n"; body = codes "abc\r\n" } ∷ [];
  last = codes "0;end\r\n";
  trailers = codes "t: 1\r\n" ∷ [];
}

abbrev wired : Link
wired =
    link (codes "3;x=1\r\nab")
      (chunk (codes "c\r\n0;end") ∷ chunk (codes "\r\nt: 1\r\n\r\nnext") ∷ [])

wired-IsCalm : IsCalm wired
wired-IsCalm = record { quiet = tt; shut = refl; drained = refl }

message-IsMessage : IsMessage message
unfolding Stream.split_line chunk_size_of
message-IsMessage = record {
  chunks_valid = (
    record {
      first = record { whole = refl; short = omega arith };
      size = 2;
      parsed = refl;
      body_length = refl;
    },
    tt,
  );
  last_line = record { whole = refl; short = omega arith };
  last_size = refl;
  trailers_valid = (
    record { whole = refl; short = omega arith },
    (λ e. ground (arith, (text_eq_iff (codes "t: 1\r\n") (codes "\r\n")).1 e)),
    tt,
  );
}

stream_chunked-Exact_example :
    Exact wired
      (codes "3;x=1\r\nabc\r\n0\r\nt: 1\r\n\r\n")
      (codes "next")
      5
      (stream_chunked 2 4 wired)
unfolding BufferedReader.join
stream_chunked-Exact_example =
    stream_chunked-Exact 4 2 wired message (codes "next") (omega arith) (omega arith) (omega arith)
      wired-IsCalm message-IsMessage refl

-- The stream ends in the middle of the trailers.
abbrev cut : Link
cut = link (codes "0\r\nt: 1\r\nu") []

stream_chunked-spins_example : (stream_chunked 1000 4 cut).0 ≡ spinning
unfolding BufferedReader.join Stream.split_line chunk_size_of
stream_chunked-spins_example =
    stream_chunked-spins 4 1000 cut [] (codes "0\r\n") (codes "t: 1\r\n" ∷ []) (codes "u")
      (omega arith) (omega arith) (record { quiet = tt; shut = refl; drained = refl }) tt
      (record { whole = refl; short = omega arith }) refl
      (record {
        trailers = (
          record { whole = refl; short = omega arith },
          (λ e. ground (arith, (text_eq_iff (codes "t: 1\r\n") (codes "\r\n")).1 e)),
          tt,
        );
        unended = refl;
        short = omega arith;
      })
      refl
