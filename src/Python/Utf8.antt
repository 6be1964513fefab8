-- ===== src/Python/Utf8.antt =====
-- `bytes.decode()` and `str.encode()`: UTF-8, strict.
use nginx_remake_v.Prelude.{
  ℕ, zero, suc, ◌+◌, ◌-◌, ◌*◌, ◌/◌, ◌%◌, ◌≤◌, ◌<◌, ◌≡◌, refl, sym, ap, ◌∙◌, inl, inr, true, false,
  ◌&&◌, Option, none, some, [], ◌∷◌, ◌++◌, arith, ltb, leb, eqb, if◌then◌else◌, Bool-cases,
  Option-cases, Text, Bytes, number_keys, text_keys,
}

-- After the first byte of a character: how many bytes are to follow, the bits so far, and the bounds
-- of the next byte.
pub record Lead : Type 0 where
  pub more : ℕ
  pub bits : ℕ
  pub low : ℕ
  pub high : ℕ

unfoldable pub lead : ℕ → Option Lead
lead c =
    if leb 194 c && leb c 223
    then some (record { more = 1; bits = c - 192; low = 128; high = 191 })
    else if leb 224 c && leb c 239
    then some (record {
      more = 2;
      bits = c - 224;
      low = (if eqb c 224 then 160 else 128);
      high = (if eqb c 237 then 159 else 191);
    })
    else if leb 240 c && leb c 244
    then some (record {
      more = 3;
      bits = c - 240;
      low = (if eqb c 240 then 144 else 128);
      high = (if eqb c 244 then 143 else 191);
    })
    else none

-- A character in front of what was decoded.
unfoldable pub prepend : ℕ → Option Text → Option Text
prepend c none = none
prepend c (some s) = some (c ∷ s)

-- The rest of a text in which `more` bytes of a character are still to come.
unfoldable pub decode_rest : ℕ → ℕ → ℕ → ℕ → Bytes → Option Text
decode_rest zero bits low high [] = some []
decode_rest (suc more) bits low high [] = none
decode_rest zero bits low high (c ∷ s) = elim (ltb c 128) [
  | true ↦ prepend c (decode_rest zero 0 0 0 s)
  | false ↦ elim (lead c) [ none ↦ none | some l ↦ decode_rest l.more l.bits l.low l.high s ]
]
decode_rest (suc zero) bits low high (c ∷ s) = elim (leb low c && leb c high) [
  | true ↦ prepend (bits * 64 + (c - 128)) (decode_rest zero 0 0 0 s)
  | false ↦ none
]
decode_rest (suc (suc more)) bits low high (c ∷ s) = elim (leb low c && leb c high) [
  | true ↦ decode_rest (suc more) (bits * 64 + (c - 128)) 128 191 s
  | false ↦ none
]

-- `s.decode()`; `none` is a `UnicodeDecodeError`.
unfoldable pub decode : Bytes → Option Text
decode s = decode_rest 0 0 0 0 s

abbrev two_bytes : ℕ → Bytes
two_bytes c = (c / 64 + 192) ∷ (c % 64 + 128) ∷ []

abbrev three_bytes : ℕ → Bytes
three_bytes c = (c / 4096 + 224) ∷ (c / 64 % 64 + 128) ∷ (c % 64 + 128) ∷ []

abbrev four_bytes : ℕ → Bytes
four_bytes c =
    (c / 262144 + 240) ∷ (c / 4096 % 64 + 128) ∷ (c / 64 % 64 + 128) ∷ (c % 64 + 128) ∷ []

-- The bytes of a character; a surrogate has none.
unfoldable pub encode_one : ℕ → Option Bytes
encode_one c =
    if ltb c 128
    then some (c ∷ [])
    else if ltb c 2048
    then some (two_bytes c)
    else if leb 55296 c && leb c 57343
    then none
    else if ltb c 65536
    then some (three_bytes c)
    else if ltb c 1114112
    then some (four_bytes c)
    else none

-- `s.encode()`; `none` is a `UnicodeEncodeError`.
unfoldable pub encode : Text → Option Bytes
encode [] = some []
encode (c ∷ s) = elim (encode_one c) [
  | none ↦ none
  | some b ↦ elim (encode s) [ none ↦ none | some bs ↦ some (b ++ bs) ]
]

first_byte :
    (c : ℕ) (s : Bytes) (l : Lead)
    → 128 ≤ c
    → lead c ≡ some l
    → decode (c ∷ s) ≡ decode_rest l.more l.bits l.low l.high s
unfolding decode decode_rest
first_byte c s l h e = ground (arith, e)

middle_byte :
    (m bits low high c : ℕ) (s : Bytes)
    → low ≤ c
    → c ≤ high
    → decode_rest (suc (suc m)) bits low high (c ∷ s)
      ≡ decode_rest (suc m) (bits * 64 + (c - 128)) 128 191 s
unfolding decode_rest
middle_byte m bits low high c s h k = ground arith

last_byte :
    (bits low high c d : ℕ) (s : Bytes)
    → low ≤ c
    → c ≤ high
    → bits * 64 + (c - 128) ≡ d
    → decode_rest 1 bits low high (c ∷ s) ≡ prepend d (decode s)
unfolding decode_rest decode
last_byte bits low high c d s h k e =
    let now : decode_rest 1 bits low high (c ∷ s)
        ≡ prepend (bits * 64 + (c - 128)) (decode_rest 0 0 0 0 s) =
      ground arith in
    now ∙ ap (λ (x : ℕ). prepend x (decode_rest 0 0 0 0 s)) e

lead_two :
    (c : ℕ)
    → 128 ≤ c
    → c < 2048
    → lead (c / 64 + 192) ≡ some (record { more = 1; bits = c / 64; low = 128; high = 191 })
unfolding lead
lead_two c h k = ground arith

lead_three :
    (c : ℕ)
    → 2048 ≤ c
    → c < 65536
    → lead (c / 4096 + 224)
      ≡ some (record {
        more = 2;
        bits = c / 4096;
        low = (if eqb (c / 4096) 0 then 160 else 128);
        high = (if eqb (c / 4096) 13 then 159 else 191);
      })
unfolding lead
lead_three c h k = ground arith

lead_four :
    (c : ℕ)
    → 65536 ≤ c
    → c < 1114112
    → lead (c / 262144 + 240)
      ≡ some (record {
        more = 3;
        bits = c / 262144;
        low = (if eqb (c / 262144) 0 then 144 else 128);
        high = (if eqb (c / 262144) 4 then 143 else 191);
      })
unfolding lead
lead_four c h k = ground arith

decode_ascii : (c : ℕ) (s : Bytes) → c < 128 → decode (c ∷ s) ≡ prepend c (decode s)
unfolding decode decode_rest
decode_ascii c s h = ground arith

decode_two :
    (c : ℕ) (s : Bytes)
    → 128 ≤ c
    → c < 2048
    → decode ((c / 64 + 192) ∷ (c % 64 + 128) ∷ s) ≡ prepend c (decode s)
decode_two c s h k =
    first_byte (c / 64 + 192) _ _ (omega arith) (lead_two c h k)
    ∙ last_byte (c / 64) 128 191 (c % 64 + 128) c s (omega arith) (omega arith) (omega arith)

decode_three :
    (c : ℕ) (s : Bytes)
    → 2048 ≤ c
    → c < 65536
    → ¬ ((55296 ≤ c) × (c ≤ 57343))
    → decode ((c / 4096 + 224) ∷ (c / 64 % 64 + 128) ∷ (c % 64 + 128) ∷ s) ≡ prepend c (decode s)
decode_three c s h k out =
    first_byte (c / 4096 + 224) _ _ (omega arith) (lead_three c h k)
    ∙ middle_byte 0 (c / 4096) _ _ (c / 64 % 64 + 128) _ (ground arith) (ground arith)
    ∙ last_byte (c / 4096 * 64 + (c / 64 % 64 + 128 - 128)) 128 191 (c % 64 + 128) c s (omega arith)
        (omega arith) (omega arith)

decode_four :
    (c : ℕ) (s : Bytes)
    → 65536 ≤ c
    → c < 1114112
    → decode ((c / 262144 + 240) ∷ (c / 4096 % 64 + 128) ∷ (c / 64 % 64 + 128) ∷ (c % 64 + 128) ∷ s)
      ≡ prepend c (decode s)
decode_four c s h k =
    first_byte (c / 262144 + 240) _ _ (omega arith) (lead_four c h k)
    ∙ middle_byte 1 (c / 262144) _ _ (c / 4096 % 64 + 128) _ (ground arith) (ground arith)
    ∙ middle_byte 0 _ 128 191 (c / 64 % 64 + 128) _ (omega arith) (omega arith)
    ∙ last_byte _ 128 191 (c % 64 + 128) c s (omega arith) (omega arith) (omega arith)

of_bytes :
    (c : ℕ) (x b s : Bytes)
    → encode_one c ≡ some x
    → decode (x ++ s) ≡ prepend c (decode s)
    → encode_one c ≡ some b
    → decode (b ++ s) ≡ prepend c (decode s)
of_bytes c x b s e d h = let same : b ≡ x = cc in ap (λ (y : Bytes). decode (y ++ s)) same ∙ d

-- The bytes of a character are decoded to it.
decode_one : (c : ℕ) (b s : Bytes) → encode_one c ≡ some b → decode (b ++ s) ≡ prepend c (decode s)
unfolding encode_one
decode_one c b s h = elim (Bool-cases (ltb c 128)) [
  | inl one ↦
      of_bytes c (c ∷ []) b s (ground (arith, one)) (decode_ascii c s (ground (arith, one))) h
  | inr a ↦ elim (Bool-cases (ltb c 2048)) [
    | inl two ↦
        of_bytes c (two_bytes c) b s (ground (arith, a, two))
          (decode_two c s (ground (arith, a)) (ground (arith, two))) h
    | inr b' ↦ elim (Bool-cases (leb 55296 c && leb c 57343)) [
      | inl bad ↦ ground (arith, h, a, b', bad)
      | inr good ↦ elim (Bool-cases (ltb c 65536)) [
        | inl three ↦
            of_bytes c (three_bytes c) b s (ground (arith, a, b', good, three))
              (decode_three c s (ground (arith, b')) (ground (arith, three)) (ground (arith, good)))
              h
        | inr d ↦ elim (Bool-cases (ltb c 1114112)) [
          | inl four ↦
              of_bytes c (four_bytes c) b s (ground (arith, a, b', good, d, four))
                (decode_four c s (ground (arith, d)) (ground (arith, four))) h
          | inr beyond ↦ ground (arith, h, a, b', good, d, beyond)
        ]
      ]
    ]
  ]
]

decode_nothing : decode [] ≡ some []
unfolding decode decode_rest
decode_nothing = refl

-- What was encoded is decoded to itself.
pub decode-encode : (t : Text) (b : Bytes) → encode t ≡ some b → decode b ≡ some t
unfolding encode
decode-encode [] b h = ap decode (sym (ground (arith, h))) ∙ decode_nothing
decode-encode (c ∷ t) b h = elim (Option-cases (encode_one c)) [
  | inl e ↦ ground (arith, h, e)
  | inr (x, e) ↦ elim (Option-cases (encode t)) [
    | inl e' ↦ ground (arith, h, e, e')
    | inr (y, e') ↦ same x y e (decode-encode t y e') (ground (arith, h, e, e'))
  ]
]
  where
    same :
        (x y : Bytes)
        → encode_one c ≡ some x
        → decode y ≡ some t
        → b ≡ x ++ y
        → decode b ≡ some (c ∷ t)
    same x y e back whole =
        ap decode whole ∙ decode_one c x y e ∙ unfold prepend in ap (prepend c) back
