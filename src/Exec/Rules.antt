-- ===== src/Exec/Rules.antt =====
-- What a coroutine has done when it ends, one rule for each way to build it.
use nginx_remake_v.Exec.{Exception, Result, ok, err, spinning, Coro, resume, ◌>>=◌}

-- From a state with `P`, the result and the state after it have `Q`.
abbrev pub Ensures {ℓ κ} :
    {S A : Type ℓ} → (S → Type κ) → Coro S A → (Result A × S → Type κ) → Type (ℓ ⊔ κ)
Ensures P m Q = (s : _) → P s → Q (m s)

-- The state keeps `P`, however it ends.
abbrev pub Keeps {ℓ κ} : {S A : Type ℓ} → (S → Type κ) → Coro S A → Type (ℓ ⊔ κ)
Keeps P m = Ensures P m (λ x. P x.1)

-- A step after which the state has `Q`, before the rest; where it raises or spins, `Q` must be enough.
pub Ensures-bind {ℓ κ} :
    {S A B : Type ℓ} (P Q : S → Type κ) (R : Result B × S → Type κ) (m : Coro S A)
    (f : A → Coro S B)
    → Ensures P m (λ x. Q x.1)
    → ((e : Exception) (s : S) → Q s → R (err e, s))
    → ((s : S) → Q s → R (spinning, s))
    → ((a : A) → Ensures Q (f a) R)
    → Ensures P (m >>= f) R
Ensures-bind {S = S} {A = A} P Q R m f step raised spun rest s p = go (m s) (step s p)
  where
    go : (x : Result A × S) → Q x.1 → R (resume x.0 f x.1)
    go (ok a, t) q = rest a t q
    go (err e, t) q = raised e t q
    go (spinning, t) q = spun t q

pub Keeps-bind {ℓ κ} :
    {S A B : Type ℓ} (P : S → Type κ) (m : Coro S A) (f : A → Coro S B)
    → Keeps P m
    → ((a : A) → Keeps P (f a))
    → Keeps P (m >>= f)
Keeps-bind P m f keep rest = Ensures-bind P P (λ x. P x.1) m f keep (λ e s p. p) (λ s p. p) rest
