-- ===== src/Headers/Round.antt =====
-- Headers read back, and which line of a name counts.
use nginx_remake_v.Prelude.{
  ℕ, ◌≡◌, refl, sym, ap, ◌∙◌, inl, inr, Option, none, some, List, [], ◌∷◌, ◌++◌, append-nil,
  append_assoc, arith, ap₂, if◌then◌else◌, Option-cases, Text, ◌==◌, number_keys, text_keys,
}
use nginx_remake_v.Prelude.Dict.{Dict, lookup, insert, lookup-insert}
use nginx_remake_v.Exec.{ok}
use nginx_remake_v.Headers.{
  is_space, lstrip, strip, cut_at, HttpRequest, header_line, header_lines, request_lines, words,
  add_line, add_lines, parse_headers, build_request,
}

cut_at-append : (c : ℕ) (a b : Text) → cut_at c a ≡ none → cut_at c (a ++ c ∷ b) ≡ some (a, b)
unfolding cut_at
cut_at-append c [] b h = ground arith
cut_at-append c (e ∷ a) b h = elim (Option-cases (cut_at c a)) [
  | inl n ↦ ground (arith, h, n, cut_at-append c a b n)
  | inr (x, n) ↦ ground (arith, h, n)
]

strip-space : (v : Text) → strip (32 ∷ v) ≡ strip v
unfolding strip lstrip is_space
strip-space v = refl

insert_new : (k v : Text) (d : Dict Text Text) → lookup k d ≡ none → insert k v d ≡ d ++ (k, v) ∷ []
insert_new k v [] h = refl
insert_new k v ((j, w) ∷ d) h = ground (arith, h, insert_new k v d)

module _ (lower : Text → Text) where
  -- Headers as the parser gives them, where `seen` are those before: a name has no colon, no space
  -- around it and no capital, and stands once; a value has no space around it.
  abbrev pub IsCanonical : Dict Text Text → Dict Text Text → Type 0
  IsCanonical seen [] = Unit
  IsCanonical seen ((k, v) ∷ d) =
      (strip k ≡ k)
      × (lower k ≡ k)
      × (cut_at 58 k ≡ none)
      × (strip v ≡ v)
      × (lookup k seen ≡ none)
      × IsCanonical (seen ++ (k, v) ∷ []) d

  no_colon_add_line :
      (h : Dict Text Text) (line : Text) → cut_at 58 line ≡ none → add_line lower h line ≡ h
  unfolding add_line
  no_colon_add_line h line e = ground (arith, e)

  colon_add_line :
      (h : Dict Text Text) (line key val : Text)
      → cut_at 58 line ≡ some (key, val)
      → add_line lower h line ≡ insert (lower (strip key)) (strip val) h
  unfolding add_line
  colon_add_line h line key val e = ground (arith, e)

  add_line-header_line :
      (h : Dict Text Text) (k v : Text)
      → cut_at 58 k ≡ none
      → add_line lower h (header_line k v) ≡ insert (lower (strip k)) (strip v) h
  unfolding header_line
  add_line-header_line h k v colon =
      colon_add_line h (k ++ 58 ∷ 32 ∷ v) k (32 ∷ v) (cut_at-append 58 k (32 ∷ v) colon)
      ∙ ap (λ x. insert (lower (strip k)) x h) (strip-space v)

  add_lines-header_lines :
      (seen d : Dict Text Text)
      → IsCanonical seen d
      → add_lines lower seen (header_lines d) ≡ seen ++ d
  unfolding add_lines header_lines
  add_lines-header_lines seen [] c = sym (append-nil seen)
  add_lines-header_lines seen ((k, v) ∷ d) (trim, low, colon, trim_v, new, more) =
      let here : add_line lower seen (header_line k v) ≡ seen ++ (k, v) ∷ [] =
        add_line-header_line seen k v colon ∙ rw (trim, trim_v, low) (insert_new k v seen new) in
      ap (λ x. add_lines lower x (header_lines d)) here
      ∙ add_lines-header_lines (seen ++ (k, v) ∷ []) d more
      ∙ append_assoc seen ((k, v) ∷ []) d

  cut_words :
      (s a r b v : Text)
      → cut_at 32 s ≡ some (a, r)
      → cut_at 32 r ≡ some (b, v)
      → words s ≡ (a, b, v)
  unfolding words
  cut_words s a r b v e e' = ground (arith, e, e')

  -- Of the lines that to_bytes writes for a request the parser makes that request again, if its
  -- method and path have no blank and its headers are as the parser gives them.
  pub build_request-request_lines :
      (r : HttpRequest)
      → cut_at 32 r.method ≡ none
      → cut_at 32 r.path ≡ none
      → IsCanonical [] r.headers
      → build_request lower (request_lines r) ≡ ok r
  unfolding build_request request_lines words parse_headers
  build_request-request_lines r m p c =
      let start =
        cut_words (r.method ++ 32 ∷ (r.path ++ 32 ∷ r.version)) r.method (r.path ++ 32 ∷ r.version)
          r.path r.version (cut_at-append 32 r.method (r.path ++ 32 ∷ r.version) m)
          (cut_at-append 32 r.path r.version p) in
      ap₂
        (λ (w : Text × Text × Text) (d : Dict Text Text).
          ok (record { method = w.0; path = w.1; version = w.2; headers = d }))
        start (add_lines-header_lines [] r.headers c)

  -- The value of the last of the lines that bear a name.
  abbrev pub last_value : Text → List Text → Option Text
  last_value k [] = none
  last_value k (line ∷ lines) =
      let later = last_value k lines in
      elim later [
        | some v ↦ some v
        | none ↦ elim (cut_at 58 line) [
          | none ↦ none
          | some (key, val) ↦ if lower (strip key) == k then some (strip val) else none
        ]
      ]

  add_line-lookup :
      (h : Dict Text Text) (line k : Text)
      → lookup k (add_line lower h line) ≡ (elim (cut_at 58 line) [
        | none ↦ lookup k h
        | some (key, val) ↦ if lower (strip key) == k then some (strip val) else lookup k h
      ])
  add_line-lookup h line k = elim (Option-cases (cut_at 58 line)) [
    | inl e ↦ ground (arith, e, no_colon_add_line h line e)
    | inr ((key, val), e) ↦ ground (
      arith,
      e,
      colon_add_line h line key val e,
      lookup-insert (lower (strip key)) k (strip val) h,
    )
  ]

  add_lines-lookup :
      (h : Dict Text Text) (lines : List Text) (k : Text)
      → lookup k (add_lines lower h lines)
        ≡ (elim (last_value k lines) [ none ↦ lookup k h | some v ↦ some v ])
  unfolding add_lines
  add_lines-lookup h [] k = refl
  add_lines-lookup h (line ∷ lines) k =
      ground (arith, add_lines-lookup (add_line lower h line) lines k, add_line-lookup h line k)

  -- A header has the value of the last line that bears its name, in any case and with any space
  -- around it; a line without a colon bears none.
  pub parse_headers-lookup :
      (lines : List Text) (k : Text) → lookup k (parse_headers lower lines) ≡ last_value k lines
  unfolding parse_headers
  parse_headers-lookup lines k = add_lines-lookup [] lines k ∙ same (last_value k lines)
    where
      same : (o : Option Text) → (elim o [ none ↦ none | some v ↦ some v ]) ≡ o
      same none = refl
      same (some v) = refl
