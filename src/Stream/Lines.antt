-- ===== src/Stream/Lines.antt =====
-- What `readline` gives on a quiet stream, in terms of the first line of its content.
use nginx_remake_v.Prelude.{
  ◌+◌, ◌≤◌, ◌<◌, ◌≡◌, refl, sym, ap, ◌∙◌, subst, inl, inr, Option, none, some, List, [], ◌∷◌, ◌++◌,
  append-nil, append_assoc, arith, Option-cases, length, length-append, Bytes, number_keys,
  text_keys,
}
use nginx_remake_v.Exec.{Result, ok}
use nginx_remake_v.Stream.{
  Arrival, chunk, stall, broken, StreamReader, split_line, line_limit, line_ready, line_from,
  readline,
}
use nginx_remake_v.Stream.Laws.{to_come, content, IsQuiet}

pub split_line-parts :
    (s : Bytes) {l rest : Bytes} → split_line s ≡ some (l, rest) → (s ≡ l ++ rest) × (0 < length l)
unfolding split_line
split_line-parts [] e = cc
split_line-parts (c ∷ s) {l} {rest} e = elim (Option-cases (split_line s)) [
  | inl h ↦ ground (arith, h)
  | inr (p, h) ↦ ground (arith, h, split_line-parts s {l = p.0} {rest = p.1} h)
]

-- More bytes behind do not change the first line.
pub split_line-append :
    (s t : Bytes) {l rest : Bytes}
    → split_line s ≡ some (l, rest)
    → split_line (s ++ t) ≡ some (l, rest ++ t)
unfolding split_line
split_line-append [] t e = cc
split_line-append (c ∷ s) t {l} {rest} e = elim (Option-cases (split_line s)) [
  | inl h ↦ ground (arith, h)
  | inr (p, h) ↦ ground (arith, h, split_line-append s t {l = p.0} {rest = p.1} h)
]

-- Where the first bytes hold no newline, the line is longer than they are.
pub split_line-beyond :
    (s t : Bytes) {l rest : Bytes}
    → split_line s ≡ none
    → split_line (s ++ t) ≡ some (l, rest)
    → length s < length l
unfolding split_line
split_line-beyond [] t h e = (split_line-parts t e).1
split_line-beyond (c ∷ s) t {l} {rest} h e = elim (Option-cases (split_line (s ++ t))) [
  | inl k ↦ ground (arith, k, Option-cases (split_line s))
  | inr (p, k) ↦
      ground (arith, k, Option-cases (split_line s), split_line-beyond s t {l = p.0} {rest = p.1})
]

-- The answer of a `readline`: the line, from a stream that stays quiet and has the rest.
pub record Line (l rest : Bytes) (r : Result Bytes × StreamReader) : Type 0 where
  pub gives : r.0 ≡ ok l
  pub leaves : content r.1 ≡ rest
  pub quiet : IsQuiet (r.1).coming

-- A line that begins in `s` and ends in `t`.
pub split_line-skip :
    (s t : Bytes) {l rest : Bytes}
    → split_line s ≡ none
    → split_line (s ++ t) ≡ some (l, rest)
    → (m : Bytes) × (l ≡ s ++ m) × (split_line t ≡ some (m, rest))
unfolding split_line
split_line-skip [] t {l} {rest} h e = (l, refl, e)
split_line-skip (c ∷ s) t {l} {rest} h e = elim (Option-cases (split_line (s ++ t))) [
  | inl k ↦ ground (arith, k, Option-cases (split_line s))
  | inr (p, k) ↦
      let shut : split_line s ≡ none = ground (arith, h) in
      let (m, lm, tm) = split_line-skip s t {l = p.0} {rest = p.1} shut k in
      let parts : (l ≡ c ∷ p.0) × (rest ≡ p.1) = ground (arith, h, e, k) in
      (m, parts.0 ∙ ap (◌∷◌ c) lm, rw parts.1 tm)
]

pub some_pair :
    {a c b d : Bytes}
    → ◌≡◌ {A = Option (Bytes × Bytes)} (some (a, b)) (some (c, d))
    → (a ≡ c) × (b ≡ d)
some_pair e = ground arith

ready_line :
    (s : Bytes) {l rest : Bytes}
    → split_line s ≡ some (l, rest)
    → length l ≤ line_limit + 1
    → line_ready s ≡ some (ok l, rest)
unfolding line_ready
ready_line s e fits = ground arith

ready_none : (s : Bytes) → split_line s ≡ none → length s ≤ line_limit → line_ready s ≡ none
unfolding line_ready
ready_none s e fits = ground arith

-- A whole line within asyncio's limit is read, however the network has cut it.
line_from-Line :
    (as' : List Arrival) (s : Bytes) {l rest : Bytes}
    → IsQuiet as'
    → split_line (s ++ to_come as') ≡ some (l, rest)
    → length l ≤ line_limit + 1
    → Line l rest (line_from as' s)
unfolding line_from
line_from-Line [] s {l} {rest} q e fits =
    rw (ready_line s (rw append-nil at e) fits, line_from)
      (record { gives = refl; leaves = append-nil rest; quiet = tt })
line_from-Line (chunk c ∷ more) s {l} {rest} q e fits = elim (Option-cases (split_line s)) [
  | inl h ↦
      rw
        (
          ready_none s h (omega (arith, split_line-beyond s (c ++ to_come more) h e, fits)),
          line_from,
        )
        (line_from-Line more (s ++ c) q (ap split_line (append_assoc s c (to_come more)) ∙ e) fits)
  | inr (p, h) ↦
      let same =
        some_pair (sym (split_line-append s (c ++ to_come more) {l = p.0} {rest = p.1} h) ∙ e) in
      let fits' : length p.0 ≤ line_limit + 1 = rw same.0 fits in
      rw (ready_line s {l = p.0} {rest = p.1} h fits', line_from)
        (record { gives = ap ok same.0; leaves = same.1; quiet = q })
]
line_from-Line (stall ∷ more) s q e fits = elim q [ ]
line_from-Line (broken x ∷ more) s q e fits = elim q [ ]

-- `readline` gives a first line that asyncio's limit allows, however the network has cut it.
pub readline-Line :
    (r : StreamReader) {l rest : Bytes}
    → IsQuiet r.coming
    → split_line (content r) ≡ some (l, rest)
    → length l ≤ line_limit + 1
    → Line l rest (readline r)
unfolding readline
readline-Line r q e fits = line_from-Line r.coming r.buffer q e fits

-- Bytes with no newline in front of bytes with none.
pub split_line-append_none : (s t : Bytes) → split_line (s ++ t) ≡ none → split_line s ≡ none
split_line-append_none s t e = elim (Option-cases (split_line s)) [
  | inl h ↦ h
  | inr (p, h) ↦ ground (arith, e, split_line-append s t {l = p.0} {rest = p.1} h)
]

line_from-rest :
    (as' : List Arrival) (s : Bytes)
    → IsQuiet as'
    → split_line (s ++ to_come as') ≡ none
    → length (s ++ to_come as') ≤ line_limit
    → Line (s ++ to_come as') [] (line_from as' s)
unfolding line_from
line_from-rest [] s q e fits =
    rw
      (
        ready_none s (split_line-append_none s [] e) (omega (arith, fits, length-append s [])),
        line_from,
      )
      (record { gives = ap ok (sym (append-nil s)); leaves = refl; quiet = tt })
line_from-rest (chunk c ∷ more) s q e fits =
    rw
      (
        ready_none s (split_line-append_none s (c ++ to_come more) e)
            (omega (arith, fits, length-append s (c ++ to_come more))),
        line_from,
      )
      (subst (λ (b : Bytes). Line b [] (line_from more (s ++ c))) (append_assoc s c (to_come more))
        (line_from-rest more (s ++ c) q (ap split_line (append_assoc s c (to_come more)) ∙ e)
          (rw append_assoc fits)))
line_from-rest (stall ∷ more) s q e fits = elim q [ ]
line_from-rest (broken x ∷ more) s q e fits = elim q [ ]

-- With no newline left, `readline` gives all that is left at the end of the file.
pub readline-rest :
    (r : StreamReader)
    → IsQuiet r.coming
    → split_line (content r) ≡ none
    → length (content r) ≤ line_limit
    → Line (content r) [] (readline r)
unfolding readline
readline-rest r q e fits = line_from-rest r.coming r.buffer q e fits
