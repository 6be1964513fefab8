-- ===== src/Python.antt =====
-- What the proxy's code uses of Python's texts: UTF-8, `int`, `str` of a number, `join` and `split`.
--
-- Python's tables of characters are an argument, the record Unicode.
pub mod Utf8
pub mod Samples
mod Tests
use nginx_remake_v.Prelude.{
  ℕ, zero, suc, ◌+◌, ◌-◌, ◌*◌, ◌/◌, ◌%◌, ◌≤◌, ◌<◌, min, max, ◌≡◌, refl, sym, ap, ◌∙◌, subst, ◌≢◌,
  ◌↔◌, ◌⊎◌, inl, inr, Bool, true, false, not, ◌&&◌, ◌||◌, Option, none, some, List, [], ◌∷◌, ◌++◌,
  map, append-nil, append_assoc, arith, ap₂, ltb, leb, eqb, if◌then◌else◌, ltb→lt, leb→le, eqb_iff,
  Bool-cases, Option-cases, length, get_elem?, take, drop, length-append, take-append-drop,
  length-take, length-drop, Text, Bytes, codes, text_eq, text_eq_iff, Key, ◌==◌, number_keys,
  text_keys,
}
use nginx_remake_v.Prelude.Dict.{
  Dict, lookup, insert, lookup-insert, lookup-insert_self, lookup-insert_ne,
}
use nginx_remake_v.Headers.{strip}

-- `lower` and `upper` of a text; for a character beyond ASCII, its value where `int` takes it for a
-- digit, and whether `isdigit` does.
pub record Unicode : Type 0 where
  pub lower : Text → Text
  pub upper : Text → Text
  pub decimal : ℕ → Option ℕ
  pub digit : ℕ → Bool

unfoldable pub digit_value : Unicode → ℕ → Option ℕ
digit_value u c =
    if ltb c 128 then (if leb b'0' c && leb c b'9' then some (c - 48) else none) else u.decimal c

-- Digits, single underscores between them, after a number `v`; `after` says that a digit stands in front.
unfoldable pub digits : Unicode → Text → ℕ → Bool → Option ℕ
digits u [] v after = if after then some v else none
digits u (c ∷ s) v after = elim (eqb c b'_') [
  | true ↦ let rest = digits u s v false in if after then rest else none
  | false ↦ elim (digit_value u c) [ none ↦ none | some d ↦ digits u s (v * 10 + d) true ]
]

-- A number that may be negative.
pub data ℤ : Type 0 where
  pos : ℕ → ℤ
  negsuc : ℕ → ℤ

abbrev pub negative : ℕ → ℤ
negative zero = pos zero
negative (suc n) = negsuc n

-- The limit on the digits that `int` reads.
abbrev pub max_digits : ℕ
max_digits = 4300

digit_count : Text → ℕ
digit_count [] = 0
digit_count (c ∷ s) = (if eqb c b'_' then 0 else 1) + digit_count s

unsigned : Unicode → Text → Option ℕ
unfolding digits digit_count
unsigned u s = if ltb max_digits (digit_count s) then none else digits u s 0 false

signed : Unicode → Text → Option ℤ
unfolding unsigned
signed u [] = none
signed u (c ∷ s) =
    if eqb c b'-'
    then (elim (unsigned u s) [ none ↦ none | some n ↦ some (negative n) ])
    else if eqb c b'+'
    then (elim (unsigned u s) [ none ↦ none | some n ↦ some (pos n) ])
    else (elim (unsigned u (c ∷ s)) [ none ↦ none | some n ↦ some (pos n) ])

-- `int(s)`; `none` is a `ValueError`.
unfoldable pub int : Unicode → Text → Option ℤ
unfolding signed
int u s = signed u (strip s)

all_digits : Unicode → Text → Bool
all_digits u [] = true
all_digits u (c ∷ s) = (if ltb c 128 then leb b'0' c && leb c b'9' else u.digit c) && all_digits u s

-- `s.isdigit()`
unfoldable pub isdigit : Unicode → Text → Bool
unfolding all_digits
isdigit u [] = false
isdigit u (c ∷ s) = all_digits u (c ∷ s)

show_from : ℕ → ℕ → Text
show_from zero n = []
show_from (suc fuel) n = elim (ltb n 10) [
  | true ↦ (n + 48) ∷ []
  | false ↦ show_from fuel (n / 10) ++ (n % 10 + 48) ∷ []
]

-- `str(n)`, n ≥ 0
unfoldable pub show : ℕ → Text
unfolding show_from
show n = show_from (n + 1) n

-- `"\r\n".join(lines)`
unfoldable pub join_lines : List Text → Text
join_lines [] = []
join_lines (l ∷ []) = l
join_lines (l ∷ m ∷ ms) = l ++ (codes "\r\n" ++ join_lines (m ∷ ms))

-- A character in front of the first line.
abbrev pub onto_first : ℕ → List Text → List Text
onto_first c [] = (c ∷ []) ∷ []
onto_first c (l ∷ ls) = (c ∷ l) ∷ ls

-- `split("\r\n")` of a text behind a `\r` that may begin a separator, or behind anything else.
unfoldable pub split_after : Bool → Text → List Text
split_after true [] = (13 ∷ []) ∷ []
split_after false [] = [] ∷ []
split_after true (c ∷ s) =
    let cut = [] ∷ split_after false s in
    let again = onto_first 13 (split_after true s) in
    let other = onto_first 13 (onto_first c (split_after false s)) in
    if eqb c 10 then cut else if eqb c 13 then again else other
split_after false (c ∷ s) =
    let held = split_after true s in
    let other = onto_first c (split_after false s) in if eqb c 13 then held else other

-- `split("\r\n")`
unfoldable pub split_lines : Text → List Text
split_lines s = split_after false s
