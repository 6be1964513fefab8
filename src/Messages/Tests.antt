-- ===== src/Messages/Tests.antt =====
-- Messages on concrete bytes.
use nginx_remake_v.Prelude.{◌≡◌, refl, none, some, [], ◌∷◌, codes, number_keys, text_keys}
use nginx_remake_v.Exec.{ok}
use nginx_remake_v.Headers.{
  words, add_lines, add_line, parse_headers, cut_at, strip, lstrip, rstrip, keep_last, is_space,
}
use nginx_remake_v.Python.{
  pos, negsuc, int, isdigit, show, split_lines, split_after, digits, digit_value,
}
use nginx_remake_v.Python.Utf8.{decode, decode_rest, prepend}
use nginx_remake_v.Python.Samples.{ascii}
use nginx_remake_v.Messages.{
  parse_response, from_bytes, build_response, status_of, parse_content_length, error_response,
  error_body, error_head, reason_of,
}

no_reason :
    parse_response ascii (codes "HTTP/1.1 404\r\nX: y")
    ≡ ok (record {
      version = codes "HTTP/1.1";
      status_code = 404;
      reason = [];
      headers = (codes "x", codes "y") ∷ [];
    })
unfolding parse_response from_bytes build_response status_of isdigit int digits digit_value words
    add_lines add_line parse_headers cut_at strip lstrip rstrip keep_last is_space decode
    decode_rest prepend split_lines split_after
no_reason = refl

lengths :
    (parse_content_length ascii ((codes "content-length", codes " 1_0 ") ∷ []) ≡ some (pos 10))
    × (parse_content_length ascii ((codes "content-length", codes "-1") ∷ []) ≡ some (negsuc 0))
    × (parse_content_length ascii ((codes "content-length", codes "1__0") ∷ []) ≡ none)
unfolding parse_content_length int digits digit_value strip lstrip rstrip keep_last is_space
lengths = (refl, refl, refl)

gateway_timeout :
    error_response 504
    ≡ codes
        "HTTP/1.1 504 Gateway Timeout\r\nContent-Type: text/plain; charset=utf-8\r\nContent-Length: 19\r\nConnection: close\r\n\r\n504 Gateway Timeout"
unfolding error_response error_head error_body reason_of show
gateway_timeout = refl
