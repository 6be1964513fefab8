-- ===== src/Headers.antt =====
-- Start lines and headers of proxy/http_parser.py: `_parse_headers`, `HttpRequest` with the lines of
-- its `to_bytes`, and `HttpRequestParser`.
--
-- `lower` stands for `str.lower`, whose tables are Unicode's.
pub mod Round
mod Tests
use nginx_remake_v.Prelude.{
  ℕ, zero, suc, ◌+◌, ◌-◌, ◌*◌, ◌/◌, ◌%◌, ◌≤◌, ◌<◌, min, max, ◌≡◌, refl, sym, ap, ◌∙◌, subst, ◌≢◌,
  ◌↔◌, ◌⊎◌, inl, inr, Bool, true, false, not, ◌&&◌, ◌||◌, Option, none, some, List, [], ◌∷◌, ◌++◌,
  map, append-nil, append_assoc, arith, ap₂, ltb, leb, eqb, if◌then◌else◌, ltb→lt, leb→le, eqb_iff,
  Bool-cases, Option-cases, length, get_elem?, take, drop, length-append, take-append-drop,
  length-take, length-drop, Text, Bytes, codes, text_eq, text_eq_iff, Key, ◌==◌, number_keys,
  text_keys,
}
use nginx_remake_v.Prelude.Dict.{
  Dict, lookup, insert, lookup-insert, lookup-insert_self, lookup-insert_ne,
}
use nginx_remake_v.Exec.{Exception, index_error, Result, ok, err, spinning}

-- The characters that `str.strip` takes off.
unfoldable pub is_space : ℕ → Bool
is_space c =
    (leb 9 c && leb c 13)
    || (leb 28 c && leb c 32)
    || eqb c 133
    || eqb c 160
    || eqb c 5760
    || (leb 8192 c && leb c 8202)
    || eqb c 8232
    || eqb c 8233
    || eqb c 8239
    || eqb c 8287
    || eqb c 12288

unfoldable pub lstrip : Text → Text
lstrip [] = []
lstrip (c ∷ s) = let rest = lstrip s in if is_space c then rest else c ∷ s

-- A character before what is left of the text behind it.
unfoldable pub keep_last : ℕ → Text → Text
keep_last c [] = if is_space c then [] else c ∷ []
keep_last c (e ∷ s) = c ∷ e ∷ s

unfoldable pub rstrip : Text → Text
rstrip [] = []
rstrip (c ∷ s) = keep_last c (rstrip s)

-- `strip()`
unfoldable pub strip : Text → Text
strip s = rstrip (lstrip s)

-- `split(c, 1)`, where there is a `c`.
unfoldable pub cut_at : ℕ → Text → Option (Text × Text)
cut_at c [] = none
cut_at c (e ∷ s) =
    let rest = cut_at c s in
    if eqb e c then some ([], s) else elim rest [ none ↦ none | some (a, b) ↦ some (e ∷ a, b) ]

pub record HttpRequest : Type 0 where
  pub method : Text
  pub path : Text
  pub version : Text
  pub headers : Dict Text Text

-- `f"{k}: {v}"`
unfoldable pub header_line : Text → Text → Text
header_line k v = k ++ (codes ": " ++ v)

unfoldable pub header_lines : Dict Text Text → List Text
header_lines [] = []
header_lines ((k, v) ∷ d) = header_line k v ∷ header_lines d

-- The lines that `to_bytes` joins, without the empty one.
unfoldable pub request_lines : HttpRequest → List Text
request_lines r =
    (r.method ++ (codes " " ++ (r.path ++ (codes " " ++ r.version)))) ∷ header_lines r.headers

-- `split(" ", 2)`, with the empty text for a part that is missing.
unfoldable pub words : Text → Text × Text × Text
words s = elim (cut_at 32 s) [
  | none ↦ (s, [], [])
  | some (a, r) ↦ elim (cut_at 32 r) [ none ↦ (a, r, []) | some (b, v) ↦ (a, b, v) ]
]

module _ (lower : Text → Text) where
  unfoldable pub add_line : Dict Text Text → Text → Dict Text Text
  add_line h line = elim (cut_at 58 line) [
    | none ↦ h
    | some (key, val) ↦ insert (lower (strip key)) (strip val) h
  ]

  -- The rest of the loop of `_parse_headers`.
  unfoldable pub add_lines : Dict Text Text → List Text → Dict Text Text
  add_lines h [] = h
  add_lines h (line ∷ lines) = add_lines (add_line h line) lines

  unfoldable pub parse_headers : List Text → Dict Text Text
  parse_headers lines = add_lines [] lines

  -- `HttpRequestParser._build_metadata`
  unfoldable pub build_request : List Text → Result HttpRequest
  build_request [] = err index_error
  build_request (line ∷ lines) =
      let (method, path, version) = words line in
      ok (record { method = method; path = path; version = version; headers = parse_headers lines })
