-- ===== src/MessageParser/Tests.antt =====
-- The cutting of headers on concrete bytes.
use nginx_remake_v.Prelude.{
  ◌≡◌, refl, false, Option, some, List, [], ◌∷◌, Bytes, codes, number_keys, text_keys,
}
use nginx_remake_v.Exec.{Result, ok, err, value_error}
use nginx_remake_v.BufferedReader.{join}
use nginx_remake_v.MessageParser.{HttpMessageParser, message_parser, strip, split_first, feed}
use nginx_remake_v.MessageParser.Framing.{IsWaiting, Feeds, feed-Feeds, feed_all, feed_all-join}

-- A decoding that fails on no bytes at all.
abbrev build : Bytes → Result Bytes
build [] = err value_error
build (c ∷ s) = ok (c ∷ s)

abbrev pieces : List Bytes
pieces = codes "GET / HTTP/1.1\r" ∷ codes "\n\r" ∷ codes "\nbo" ∷ codes "dy\r\n\r\n" ∷ []

abbrev waiting : HttpMessageParser
waiting = record { buffer = codes "GE"; headers_done = false }

cuts_headers :
    (feed build message_parser (codes "a: b\r\n\r\nbody\r\n\r\n")).0
    ≡ ok (some (codes "a: b"), codes "body\r\n\r\n")
unfolding feed message_parser split_first strip
cuts_headers = refl

keeps_waiting : IsWaiting build waiting
keeps_waiting = unfold split_first strip in (record { undone = refl; unseen = refl })

feed-Feeds_example :
    (r : Option (Bytes × Bytes)) × Feeds build
      (codes "GET\r\n\r\n")
      r
      (feed build waiting (codes "T\r\n\r\n"))
feed-Feeds_example = feed-Feeds build waiting (codes "T\r\n\r\n") refl

feed_all-join_example : feed_all build waiting pieces ≡ feed build waiting (join pieces)
feed_all-join_example = feed_all-join build waiting pieces keeps_waiting
