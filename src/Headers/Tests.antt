-- ===== src/Headers/Tests.antt =====
-- Headers on concrete lines.
use nginx_remake_v.Prelude.{
  ◌+◌, ◌≡◌, refl, ◌&&◌, none, List, [], ◌∷◌, leb, if◌then◌else◌, Text, codes, number_keys,
  text_keys,
}
use nginx_remake_v.Prelude.Dict.{lookup}
use nginx_remake_v.Exec.{ok}
use nginx_remake_v.Headers.{
  is_space, lstrip, keep_last, rstrip, strip, cut_at, HttpRequest, request_lines, words, add_line,
  add_lines, parse_headers, build_request,
}
use nginx_remake_v.Headers.Round.{
  IsCanonical, build_request-request_lines, last_value, parse_headers-lookup,
}

-- `lower` on ASCII.
abbrev lower_ascii : Text → Text
lower_ascii [] = []
lower_ascii (c ∷ s) = (if leb 65 c && leb c 90 then c + 32 else c) ∷ lower_ascii s

abbrev request : HttpRequest
request = record {
  method = codes "GET";
  path = codes "/a b";
  version = codes "HTTP/1.1";
  headers = (codes "host", codes "x:80") ∷ (codes "accept", codes "*/*") ∷ [];
}

abbrev plain : HttpRequest
plain = record request { path = codes "/" }

abbrev sent : List Text
sent = codes "Host : one" ∷ codes "no colon" ∷ codes "HOST:  two " ∷ []

last_counts : parse_headers lower_ascii sent ≡ (codes "host", codes "two") ∷ []
unfolding parse_headers add_lines add_line cut_at strip lstrip rstrip keep_last is_space
last_counts = refl

-- A blank in the path ends it.
blank_in_path : words (codes "GET /a b HTTP/1.1") ≡ (codes "GET", codes "/a", codes "b HTTP/1.1")
unfolding words cut_at
blank_in_path = refl

no_blank : (cut_at 32 (codes "GET") ≡ none) × (cut_at 32 (codes "/") ≡ none)
unfolding cut_at
no_blank = (refl, refl)

plain-IsCanonical : IsCanonical lower_ascii [] plain.headers
plain-IsCanonical =
    unfold strip lstrip rstrip keep_last is_space cut_at in
    (refl, refl, refl, refl, refl, (refl, refl, refl, refl, refl, tt))

build_request-request_lines_example : build_request lower_ascii (request_lines plain) ≡ ok plain
build_request-request_lines_example =
    build_request-request_lines lower_ascii plain no_blank.0 no_blank.1 plain-IsCanonical

parse_headers-lookup_example :
    lookup (codes "host") (parse_headers lower_ascii sent)
    ≡ last_value lower_ascii (codes "host") sent
parse_headers-lookup_example = parse_headers-lookup lower_ascii sent (codes "host")
