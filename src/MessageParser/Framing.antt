-- ===== src/MessageParser/Framing.antt =====
-- The first empty line ends the headers, however the network cuts the bytes.
use nginx_remake_v.Prelude.{
  ℕ, ◌+◌, ◌≤◌, ◌<◌, ◌≡◌, refl, sym, ap, ◌∙◌, subst, ◌≢◌, inl, inr, Bool, true, false, Option, none,
  some, List, [], ◌∷◌, ◌++◌, append-nil, append_assoc, arith, ap₂, leb, if◌then◌else◌, leb→le,
  Bool-cases, Option-cases, length, length-append, append_split, Bytes, number_keys, text_keys,
}
use nginx_remake_v.Exec.{Result, ok, err, spinning}
use nginx_remake_v.BufferedReader.{join}
use nginx_remake_v.MessageParser.{
  HttpMessageParser, strip, split_first, delimiter, with_rest, cut, feed,
}

strip_joins : (d s a : Bytes) → strip d s ≡ some a → s ≡ d ++ a
unfolding strip
strip_joins [] s a h = ground (arith, h)
strip_joins (d ∷ ds) [] a h = cc
strip_joins (d ∷ ds) (c ∷ s) a h = ground (arith, h, strip_joins ds s a)

strip-append : (d a : Bytes) → strip d (d ++ a) ≡ some a
unfolding strip
strip-append [] a = refl
strip-append (d ∷ ds) a = ground (arith, strip-append ds a)

strip_more : (d s a t : Bytes) → strip d s ≡ some a → strip d (s ++ t) ≡ some (a ++ t)
strip_more d s a t h =
    ap (λ (x : Bytes). strip d (x ++ t)) (strip_joins d s a h)
    ∙ ap (strip d) (append_assoc d a t)
    ∙ strip-append d (a ++ t)

-- The text is cut at an occurrence of the delimiter, and no other stands further in front.
pub record Cuts (d s b a : Bytes) : Type 0 where
  pub joins : s ≡ b ++ (d ++ a)
  pub least : (x y : Bytes) → s ≡ x ++ (d ++ y) → length b ≤ length x

-- No occurrence.
abbrev pub IsFree : Bytes → Bytes → Type 0
IsFree d s = (x y : Bytes) → s ≢ x ++ (d ++ y)

-- What `split_first` has found.
abbrev pub Splits : Bytes → Bytes → Option (Bytes × Bytes) → Type 0
Splits d s none = IsFree d s
Splits d s (some (b, a)) = Cuts d s b a

-- An occurrence in the text one byte further.
abbrev further : ℕ → Option (Bytes × Bytes) → Option (Bytes × Bytes)
further c r = elim r [ none ↦ none | some (b, a) ↦ some (c ∷ b, a) ]

Splits-next :
    (d : Bytes) (c : ℕ) (s : Bytes) (r : Option (Bytes × Bytes))
    → strip d (c ∷ s) ≡ none
    → Splits d s r
    → Splits d (c ∷ s) (further c r)
Splits-next d c s none h free = here_free
  where
    here_free : IsFree d (c ∷ s)
    here_free [] y e = cc (ap (strip d) e, strip-append d y, h)
    here_free (x ∷ xs) y e = free xs y (ground (arith, e))
Splits-next d c s (some (b, a)) h k = record { joins = ap (◌∷◌ c) k.joins; least = least }
  where
    least : (x y : Bytes) → c ∷ s ≡ x ++ (d ++ y) → length (c ∷ b) ≤ length x
    least [] y e = cc (ap (strip d) e, strip-append d y, h)
    least (x ∷ xs) y e = omega (arith, k.least xs y (ground (arith, e)))

pub split_first-Splits : (e : ℕ) (ds s : Bytes) → Splits (e ∷ ds) s (split_first (e ∷ ds) s)
unfolding split_first
split_first-Splits e ds [] = free
  where
    free : IsFree (e ∷ ds) []
    free [] y h = cc
    free (x ∷ xs) y h = cc
split_first-Splits e ds (c ∷ s) = elim (Option-cases (strip (e ∷ ds) (c ∷ s))) [
  | inl h ↦
      let same : further c (split_first (e ∷ ds) s) ≡ split_first (e ∷ ds) (c ∷ s) =
        ground (arith, h) in
      subst (Splits (e ∷ ds) (c ∷ s)) same
        (Splits-next (e ∷ ds) c s (split_first (e ∷ ds) s) h (split_first-Splits e ds s))
  | inr (a, h) ↦
      let same : some ([], a) ≡ split_first (e ∷ ds) (c ∷ s) = ground (arith, h) in
      subst (Splits (e ∷ ds) (c ∷ s)) same
        (record { joins = strip_joins (e ∷ ds) (c ∷ s) a h; least = λ x y e'. omega arith })
]

-- Of two ways to put a text together, the part in front that is shorter begins the other.
begins :
    (xs ys us vs : Bytes)
    → xs ++ us ≡ ys ++ vs
    → length ys ≤ length xs
    → (m : Bytes) × (xs ≡ ys ++ m)
begins xs [] us vs e h = (xs, refl)
begins [] (y ∷ ys) us vs e h = absurd (omega arith)
begins (x ∷ xs) (y ∷ ys) us vs e h =
    let (m, same) = begins xs ys us vs (ground (arith, e)) (omega arith) in
    (m, ground (arith, e, same))

Cuts-append : (d s b a t : Bytes) → Cuts d s b a → Cuts d (s ++ t) b (a ++ t)
Cuts-append d s b a t k = record {
  joins = rw k.joins (append_assoc b (d ++ a) t ∙ ap (λ (z : Bytes). b ++ z) (append_assoc d a t));
  least = least;
}
  where
    least : (x y : Bytes) → s ++ t ≡ x ++ (d ++ y) → length b ≤ length x
    least x y e = elim (Bool-cases (leb (length b) (length x))) [
      | inl h ↦ leb→le (length b) (length x) h
      | inr h ↦
          let shorter : length x < length b = ground (arith, h) in
          let size : length s ≡ length b + (length d + length a) =
            ap length k.joins
            ∙ length-append b (d ++ a)
            ∙ ap (λ n. length b + n) (length-append d a) in
          let (m, same) =
            begins s (x ++ d) t y (e ∙ sym (append_assoc x d y))
              (omega (arith, length-append x d, size, shorter)) in
          k.least x m (same ∙ append_assoc x d m)
    ]

Cuts-unique : (d s b a b' a' : Bytes) → Cuts d s b a → Cuts d s b' a' → (b ≡ b') × (a ≡ a')
Cuts-unique d s b a b' a' k k' =
    let size : length b ≡ length b' = omega (arith, k.least b' a' k'.joins, k'.least b a k.joins) in
    let (same, rest) = append_split b b' (d ++ a) (d ++ a') (sym k.joins ∙ k'.joins) size in
    let (d_same, more) = append_split d d a a' rest refl in (same, more)

-- More behind the text adds to what stands behind the delimiter.
pub split_first_more :
    (e : ℕ) (ds s b a t : Bytes)
    → split_first (e ∷ ds) s ≡ some (b, a)
    → split_first (e ∷ ds) (s ++ t) ≡ some (b, a ++ t)
split_first_more e ds s b a t h =
    same (split_first (e ∷ ds) (s ++ t)) (split_first-Splits e ds (s ++ t))
  where
    cuts : Cuts (e ∷ ds) (s ++ t) b (a ++ t)
    cuts = Cuts-append (e ∷ ds) s b a t (subst (Splits (e ∷ ds) s) h (split_first-Splits e ds s))

    same : (r : Option (Bytes × Bytes)) → Splits (e ∷ ds) (s ++ t) r → r ≡ some (b, a ++ t)
    same none free = absurd (free b (a ++ t) cuts.joins)
    same (some (b', a')) k =
        let (b_same, a_same) = Cuts-unique (e ∷ ds) (s ++ t) b' a' b (a ++ t) k cuts in
        ap₂ (λ (x y : Bytes). some (x, y)) b_same a_same

module _ {M : Type 0} (build : Bytes → Result M) where
  -- A parser that is still waiting for the empty line.
  pub record IsWaiting (p : HttpMessageParser) : Type 0 where
    pub undone : p.headers_done ≡ false
    pub unseen : split_first delimiter p.buffer ≡ none

  -- What one call of `feed` has done: with no empty line in all the bytes so far, they are kept;
  -- otherwise what stands before the first one was given to the subclass, and what stands behind it
  -- comes back beside the metadata.
  abbrev pub Feeds :
      Bytes → Option (Bytes × Bytes) → Result (Option M × Bytes) × HttpMessageParser → Type 0
  Feeds s none x =
      IsFree delimiter s × (x ≡ (ok (none, []), record { buffer = s; headers_done = false }))
  Feeds s (some (b, a)) x =
      Cuts delimiter s b a
      × (x ≡ (with_rest build a (build b), record { buffer = []; headers_done = true }))

  -- Of a parser whose headers are not done: with no empty line in all the bytes so far feed keeps
  -- them; otherwise what stands before the first one is decoded and built into the metadata, or
  -- raises, what stands behind it comes back, and the parser is done.
  pub feed-Feeds :
      (p : HttpMessageParser) (chunk : Bytes)
      → p.headers_done ≡ false
      → (r : Option (Bytes × Bytes)) × Feeds (p.buffer ++ chunk) r (feed build p chunk)
  unfolding feed cut
  feed-Feeds p chunk h = finished (split_first delimiter (p.buffer ++ chunk)) refl
    where
      finished :
          (r : Option (Bytes × Bytes))
          → split_first delimiter (p.buffer ++ chunk) ≡ r
          → (r : Option (Bytes × Bytes)) × Feeds (p.buffer ++ chunk) r (feed build p chunk)
      finished none e = (
        none,
        (
          subst (Splits delimiter (p.buffer ++ chunk)) e (split_first-Splits 13 _ _),
          rw (h, e) refl,
        ),
      )
      finished (some (b, a)) e = (
        some (b, a),
        (
          subst (Splits delimiter (p.buffer ++ chunk)) e (split_first-Splits 13 _ _),
          rw (h, e) refl,
        ),
      )

  pub feed-none :
      (p : HttpMessageParser) (c : Bytes)
      → p.headers_done ≡ false
      → split_first delimiter (p.buffer ++ c) ≡ none
      → feed build p c ≡ (ok (none, []), record { buffer = p.buffer ++ c; headers_done = false })
  unfolding feed cut
  feed-none p c h e = rw (h, e) refl

  pub feed-some :
      (p : HttpMessageParser) (c b a : Bytes)
      → p.headers_done ≡ false
      → split_first delimiter (p.buffer ++ c) ≡ some (b, a)
      → feed build p c ≡ (with_rest build a (build b), record { buffer = []; headers_done = true })
  unfolding feed cut
  feed-some p c b a h e = rw (h, e) refl

  -- What a call gave, with more bytes behind the rest.
  abbrev pub followed : Result (Option M × Bytes) → Bytes → Result (Option M × Bytes)
  followed (ok (m, rest)) t = ok (m, rest ++ t)
  followed (err e) t = err e
  followed spinning t = spinning

  -- Chunks fed one after the other until the headers are done; the chunks left follow the rest.
  pub feed_all : HttpMessageParser → List Bytes → Result (Option M × Bytes) × HttpMessageParser
  feed_all p [] = (ok (none, []), p)
  feed_all p (c ∷ cs) =
      let later = feed_all (feed build p c).1 cs in
      if (feed build p c).1.headers_done
      then (followed (feed build p c).0 (join cs), (feed build p c).1)
      else later

  followed-with_rest :
      (a t : Bytes) (r : Result M) → followed (with_rest build a r) t ≡ with_rest build (a ++ t) r
  followed-with_rest a t (ok m) = refl
  followed-with_rest a t (err e) = refl
  followed-with_rest a t spinning = refl

  -- However the network cuts the bytes, a waiting parser fed chunk by chunk comes to the metadata,
  -- the rest of the body and the state, or the raise, that the whole of the bytes at once gives.
  pub feed_all-join :
      (p : HttpMessageParser) (cs : List Bytes)
      → IsWaiting p
      → feed_all p cs ≡ feed build p (join cs)
  unfolding feed_all join
  feed_all-join p [] w =
      let nothing : p.buffer ≡ p.buffer ++ [] = sym (append-nil p.buffer) in
      ap₂ (λ (b : Bytes) (h : Bool). (ok (none, []), record { buffer = b; headers_done = h }))
        nothing w.undone
      ∙ sym (feed-none p [] w.undone (ap (split_first delimiter) (append-nil p.buffer) ∙ w.unseen))
  feed_all-join p (c ∷ cs) w = elim (Option-cases (split_first delimiter (p.buffer ++ c))) [
    | inl e ↦
        let q : HttpMessageParser = record { buffer = p.buffer ++ c; headers_done = false } in
        rw (feed-none p c w.undone e) (
          feed_all-join q cs (record { undone = refl; unseen = e })
          ∙ regroup p c (join cs) w.undone)
    | inr ((b, a), e) ↦ rw (feed-some p c b a w.undone e) (
        ap (λ x. (x, record { buffer = []; headers_done = true }))
          (followed-with_rest a (join cs) (build b))
        ∙ sym (
            feed-some p (c ++ join cs) b (a ++ join cs) w.undone (
              ap (split_first delimiter) (sym (append_assoc p.buffer c (join cs)))
              ∙ split_first_more 13 (10 ∷ 13 ∷ 10 ∷ []) (p.buffer ++ c) b a (join cs) e)))
  ]
    where
      regroup :
          (p : HttpMessageParser) (c t : Bytes)
          → p.headers_done ≡ false
          → feed build (record { buffer = p.buffer ++ c; headers_done = false }) t
            ≡ feed build p (c ++ t)
      regroup p c t h = unfold feed in rw (h, append_assoc p.buffer c t) refl
