-- ===== src/Python/Tests.antt =====
-- Texts on concrete values.
use nginx_remake_v.Prelude.{◌≡◌, refl, none, some, [], ◌∷◌, codes, number_keys, text_keys}
use nginx_remake_v.Python.{show, split_lines, split_after}
use nginx_remake_v.Python.Utf8.{encode, encode_one, decode, decode_rest, prepend, lead}

shows : show 1024 ≡ codes "1024"
unfolding show
shows = refl

splits : split_lines (codes "a\r\r\nb\r\n") ≡ codes "a\r" ∷ codes "b" ∷ [] ∷ []
unfolding split_lines split_after
splits = refl

-- A euro sign, and the refusal of an overlong form.
euro :
    (encode (8364 ∷ []) ≡ some (226 ∷ 130 ∷ 172 ∷ []))
    × (decode (226 ∷ 130 ∷ 172 ∷ []) ≡ some (8364 ∷ []))
unfolding encode encode_one decode decode_rest prepend lead
euro = (refl, refl)

overlong : decode (192 ∷ 128 ∷ []) ≡ none
unfolding decode decode_rest prepend lead
overlong = refl
