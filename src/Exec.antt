-- ===== src/Exec.antt =====
-- The exceptions that the proxy's code raises or catches, and what a call that may raise gives.
pub mod Rules
use nginx_remake_v.Prelude.{ℕ}

pub data Exception : Type 0 where
  timeout_error : Exception
  body_streamer_error : Exception
  connection_refused : Exception
  connection_reset : Exception
  -- any other `OSError`, with its errno
  os_error : ℕ → Exception
  runtime_error : Exception
  value_error : Exception
  incomplete_read : Exception
  index_error : Exception

-- `spinning`: the loop has not ended within the fuel.
pub data Result {ℓ} (A : Type ℓ) : Type ℓ where
  ok : A → Result A
  err : Exception → Result A
  spinning : Result A

-- A coroutine over a state. What was done before a raise stays done.
abbrev pub Coro {ℓ} : Type ℓ → Type ℓ → Type ℓ
Coro S A = S → Result A × S

abbrev pub pure {ℓ} : {S A : Type ℓ} → A → Coro S A
pure a s = (ok a, s)

abbrev pub raise {ℓ} : {S A : Type ℓ} → Exception → Coro S A
raise e s = (err e, s)

-- Goes on from a result, in the state that came with it.
abbrev pub resume {ℓ} : {S A B : Type ℓ} → Result A → (A → Coro S B) → Coro S B
resume (ok a) rest s = rest a s
resume (err e) rest s = (err e, s)
resume spinning rest s = (spinning, s)

infixl 5 ◌>>=◌
abbrev pub ◌>>=◌ {ℓ} : {S A B : Type ℓ} → Coro S A → (A → Coro S B) → Coro S B
◌>>=◌ first rest s = resume (first s).0 rest (first s).1

infixl 5 ◌>>◌
abbrev pub ◌>>◌ {ℓ} : {S A B : Type ℓ} → Coro S A → Coro S B → Coro S B
first >> last = first >>= λ _. last
