-- ===== src/Stream/Laws.antt =====
-- What the reads of a stream give, in terms of the bytes that it still holds.
use nginx_remake_v.Prelude.{
  ℕ, zero, suc, ◌≤◌, ◌<◌, ◌≡◌, refl, sym, ap, ◌∙◌, subst, List, [], ◌∷◌, ◌++◌, append_assoc, arith,
  length, take, drop, take-append-drop, length-take, Bytes, number_keys, text_keys,
}
use nginx_remake_v.Exec.{Result, ok, err, spinning}
use nginx_remake_v.Stream.{
  Arrival, chunk, stall, broken, StreamReader, await_data, read, read_from, take_buffer,
}

-- All that the network will bring.
abbrev pub to_come : List Arrival → Bytes
to_come [] = []
to_come (chunk c ∷ more) = c ++ to_come more
to_come (stall ∷ more) = to_come more
to_come (broken e ∷ more) = []

abbrev pub content : StreamReader → Bytes
content r = r.buffer ++ to_come r.coming

-- Neither silences nor broken connections.
abbrev pub IsQuiet : List Arrival → Type 0
IsQuiet [] = Unit
IsQuiet (chunk c ∷ more) = IsQuiet more
IsQuiet (stall ∷ more) = ⊥
IsQuiet (broken e ∷ more) = ⊥

-- What a read of at most `n` bytes gives: a first part of the content, empty only at its end.
pub record Reads (n : ℕ) (before after : Bytes) (d : Bytes) : Type 0 where
  pub split : before ≡ d ++ after
  pub fits : length d ≤ n
  pub ends : 0 < n → d ≡ [] → before ≡ []

-- A raise of `read` loses no byte.
abbrev pub ReadGives : ℕ → Bytes → Result Bytes × StreamReader → Type 0
ReadGives n before (ok d, r) = Reads n before (content r) d
ReadGives n before (err e, r) = content r ≡ before
ReadGives n before (spinning, r) = ⊥

take-eq-nil : (n : ℕ) (b : Bytes) → 0 < n → take n b ≡ [] → b ≡ []
take-eq-nil zero b pos e = absurd (omega arith)
take-eq-nil (suc n) [] pos e = refl
take-eq-nil (suc n) (x ∷ xs) pos e = cc

take-Reads :
    (n : ℕ) (b more : Bytes)
    → 0 < n
    → (b ≡ [] → more ≡ [])
    → Reads n (b ++ more) (drop n b ++ more) (take n b)
take-Reads n b more pos e = record {
  split =
      ap (λ (x : Bytes). x ++ more) (sym (take-append-drop n b))
      ∙ append_assoc (take n b) (drop n b) more;
  fits = omega (arith, length-take n b);
  ends = λ _ h. let b' = take-eq-nil n b pos h in rw (b', e b');
}

await-ReadGives :
    (as' : List Arrival) (n : ℕ) (r : StreamReader)
    → 0 < n
    → r.buffer ≡ []
    → ReadGives n (to_come as') (take_buffer n (await_data as' r))
unfolding take_buffer await_data
await-ReadGives [] n r pos e = rw e (take-Reads n [] [] pos (λ _. refl))
await-ReadGives (chunk [] ∷ more) n r pos e = await-ReadGives more n r pos e
await-ReadGives (chunk (x ∷ xs) ∷ more) n r pos e =
    take-Reads n (x ∷ xs) (to_come more) pos (λ h. cc)
await-ReadGives (stall ∷ more) n r pos e = rw e
await-ReadGives (broken x ∷ more) n r pos e = rw e

read_from-ReadGives :
    (n : ℕ) (r : StreamReader) (s : Bytes)
    → 0 < n
    → r.buffer ≡ s
    → ReadGives n (content r) (read_from s n r)
unfolding read_from
read_from-ReadGives n r [] pos e =
    subst
      (λ (b : Bytes). ReadGives n (b ++ to_come r.coming) (take_buffer n (await_data r.coming r)))
      (sym e) (await-ReadGives r.coming n r pos e)
read_from-ReadGives n r (x ∷ xs) pos e = take-Reads n r.buffer (to_come r.coming) pos (λ h. cc)

-- `read` gives a first part of what the stream holds and keeps the rest; it gives nothing only at
-- the end of the file, and where it raises, it keeps all.
pub read-ReadGives : (n : ℕ) (r : StreamReader) → ReadGives n (content r) (read n r)
unfolding read
read-ReadGives zero r = record { split = refl; fits = omega arith; ends = λ h. elim h [ ] }
read-ReadGives (suc n) r = read_from-ReadGives (suc n) r r.buffer (omega arith) refl

-- On a quiet stream `read` does not raise, and leaves it quiet.
abbrev pub IsQuietOk : Result Bytes × StreamReader → Type 0
IsQuietOk (ok d, r) = IsQuiet r.coming
IsQuietOk (err e, r) = ⊥
IsQuietOk (spinning, r) = ⊥

await-IsQuietOk :
    (as' : List Arrival) (n : ℕ) (r : StreamReader)
    → IsQuiet as'
    → IsQuietOk (take_buffer n (await_data as' r))
unfolding take_buffer await_data
await-IsQuietOk [] n r q = tt
await-IsQuietOk (chunk [] ∷ more) n r q = await-IsQuietOk more n r q
await-IsQuietOk (chunk (x ∷ xs) ∷ more) n r q = q
await-IsQuietOk (stall ∷ more) n r q = elim q [ ]
await-IsQuietOk (broken e ∷ more) n r q = elim q [ ]

read_from-IsQuietOk :
    (n : ℕ) (r : StreamReader) (s : Bytes) → IsQuiet r.coming → IsQuietOk (read_from s n r)
unfolding read_from take_buffer
read_from-IsQuietOk n r [] q = await-IsQuietOk r.coming n r q
read_from-IsQuietOk n r (x ∷ xs) q = q

pub read-IsQuietOk : (n : ℕ) (r : StreamReader) → IsQuiet r.coming → IsQuietOk (read n r)
unfolding read
read-IsQuietOk zero r q = q
read-IsQuietOk (suc n) r q = read_from-IsQuietOk (suc n) r r.buffer q
