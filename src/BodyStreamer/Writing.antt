-- ===== src/BodyStreamer/Writing.antt =====
-- What a body does to its writer: nothing but writes and drains.
use nginx_remake_v.Prelude.{
  ℕ, zero, suc, ◌+◌, ◌-◌, Bool, true, false, Option, none, some, [], ◌∷◌, ltb, min, length, Bytes,
  codes, text_eq, number_keys, text_keys,
}
use nginx_remake_v.Exec.{Result, ok, Coro, pure, ◌>>=◌}
use nginx_remake_v.Exec.Rules.{Keeps, Keeps-bind}
use nginx_remake_v.Stream
use nginx_remake_v.Stream.{StreamWriter}
use nginx_remake_v.BodyStreamer.{
  Link, recv, recv_line, send, flush, require, forward, round, identity_loop, stream_identity,
  eof_step, eof_loop, stream_to_eof,
}
use nginx_remake_v.BodyStreamer.Chunked.{
  data_loop, chunk_step, chunked_loop, chunk_size_of, trailer_loop, stream_chunked,
}

-- What writes and drains keep.
pub record IsKept (P : StreamWriter → Type 0) : Type 0 where
  pub by_write : (d : Bytes) (w : StreamWriter) → P w → P (Stream.write d w)
  pub by_drain : (w : StreamWriter) → P w → P (Stream.drain w).1

module _ (P : StreamWriter → Type 0) (kept : IsKept P) where
  abbrev pub OfWriter : Link → Type 0
  OfWriter l = P l.writer

  recv-Keeps : (n : ℕ) → Keeps OfWriter (recv n)
  unfolding recv
  recv-Keeps n l p = p

  recv_line-Keeps : Keeps OfWriter recv_line
  unfolding recv_line
  recv_line-Keeps l p = p

  send-Keeps : (d : Bytes) → Keeps OfWriter (send d)
  unfolding send
  send-Keeps d l p = kept.by_write d l.writer p

  flush-Keeps : Keeps OfWriter flush
  unfolding flush
  flush-Keeps l p = kept.by_drain l.writer p

  require-Keeps : (d : Bytes) → Keeps OfWriter (require d)
  unfolding require
  require-Keeps [] l p = p
  require-Keeps (c ∷ d) l p = p

  forward-Keeps : (d : Bytes) → Keeps OfWriter (forward d)
  unfolding forward
  forward-Keeps d =
      let count : Unit {0} → Coro Link ℕ = λ _. pure (length d) in
      Keeps-bind OfWriter (send d) (λ _. flush >>= count) (send-Keeps d)
        (λ _. Keeps-bind OfWriter flush count flush-Keeps (λ _ l p. p))

  -- One more round, or the end of a loop.
  branch_Keeps :
      (b : Bool) (m : Coro Link ℕ) (n : ℕ) (l : Link)
      → Keeps OfWriter m
      → OfWriter l
      → OfWriter ((elim b as (λ _. Result ℕ × Link) [ true ↦ m l | false ↦ (ok n, l) ])).1
  branch_Keeps true m n l rest p = rest l p
  branch_Keeps false m n l rest p = p

  round-Keeps : (chunk_size want : ℕ) → Keeps OfWriter (round chunk_size want)
  unfolding round
  round-Keeps chunk_size want =
      Keeps-bind OfWriter (recv (min chunk_size want)) _ (recv-Keeps (min chunk_size want))
        (λ d. Keeps-bind OfWriter (require d) _ (require-Keeps d) (λ _. forward-Keeps d))

  identity_loop-Keeps :
      (fuel chunk_size total n : ℕ) → Keeps OfWriter (identity_loop fuel chunk_size total n)
  unfolding identity_loop
  identity_loop-Keeps zero chunk_size total n l p = p
  identity_loop-Keeps (suc fuel) chunk_size total n l p =
      branch_Keeps (ltb total n)
        (round chunk_size (n - total) >>= (λ k. identity_loop fuel chunk_size (total + k) n)) total
        l
        (Keeps-bind OfWriter (round chunk_size (n - total))
          ((λ k. identity_loop fuel chunk_size (total + k) n)) (round-Keeps chunk_size (n - total))
          (λ k. identity_loop-Keeps fuel chunk_size (total + k) n))
        p

  pub stream_identity-Keeps : (chunk_size n : ℕ) → Keeps OfWriter (stream_identity chunk_size n)
  unfolding stream_identity
  stream_identity-Keeps chunk_size n = identity_loop-Keeps (n + 1) chunk_size 0 n

  eof_step-Keeps :
      (again : ℕ → Coro Link ℕ) (total : ℕ) (d : Bytes)
      → ((n : ℕ) → Keeps OfWriter (again n))
      → Keeps OfWriter (eof_step again total d)
  unfolding eof_step
  eof_step-Keeps again total [] rest l p = p
  eof_step-Keeps again total (c ∷ d) rest l p =
      Keeps-bind OfWriter (forward (c ∷ d)) (λ n. again (total + n)) (forward-Keeps (c ∷ d))
        (λ n. rest (total + n)) l p

  eof_loop-Keeps : (fuel chunk_size total : ℕ) → Keeps OfWriter (eof_loop fuel chunk_size total)
  unfolding eof_loop
  eof_loop-Keeps zero chunk_size total l p = p
  eof_loop-Keeps (suc fuel) chunk_size total l p =
      Keeps-bind OfWriter (recv chunk_size) (eof_step (eof_loop fuel chunk_size) total)
        (recv-Keeps chunk_size)
        (λ d. eof_step-Keeps (eof_loop fuel chunk_size) total d (eof_loop-Keeps fuel chunk_size)) l
        p

  pub stream_to_eof-Keeps : (fuel chunk_size : ℕ) → Keeps OfWriter (stream_to_eof fuel chunk_size)
  unfolding stream_to_eof
  stream_to_eof-Keeps fuel chunk_size = eof_loop-Keeps fuel chunk_size 0

  data_loop-Keeps :
      (fuel chunk_size want total : ℕ) → Keeps OfWriter (data_loop fuel chunk_size want total)
  unfolding data_loop
  data_loop-Keeps zero chunk_size want total l p = p
  data_loop-Keeps (suc fuel) chunk_size want total l p =
      branch_Keeps (ltb 0 want)
        (round chunk_size want >>= (λ n. data_loop fuel chunk_size (want - n) (total + n))) total l
        (Keeps-bind OfWriter (round chunk_size want)
          ((λ n. data_loop fuel chunk_size (want - n) (total + n))) (round-Keeps chunk_size want)
          (λ n. data_loop-Keeps fuel chunk_size (want - n) (total + n)))
        p

  chunk_step-Keeps :
      (again : ℕ → Coro Link ℕ) (chunk_size total : ℕ) (line : Bytes) (o : Option ℕ)
      → ((n : ℕ) → Keeps OfWriter (again n))
      → Keeps OfWriter (chunk_step again chunk_size total line o)
  unfolding chunk_step
  chunk_step-Keeps again chunk_size total line none rest l p = p
  chunk_step-Keeps again chunk_size total line (some zero) rest l p = p
  chunk_step-Keeps again chunk_size total line (some (suc n)) rest l p =
      Keeps-bind OfWriter (send line) _ (send-Keeps line)
        (λ _.
          Keeps-bind OfWriter (data_loop (suc n + 3) chunk_size (suc n + 2) total) again
            (data_loop-Keeps (suc n + 3) chunk_size (suc n + 2) total) rest)
        l p

  chunked_loop-Keeps :
      (fuel chunk_size total : ℕ) → Keeps OfWriter (chunked_loop fuel chunk_size total)
  unfolding chunked_loop
  chunked_loop-Keeps zero chunk_size total l p = p
  chunked_loop-Keeps (suc fuel) chunk_size total l p =
      Keeps-bind OfWriter recv_line _ recv_line-Keeps
        (λ line.
          chunk_step-Keeps (chunked_loop fuel chunk_size) chunk_size total line (chunk_size_of line)
            (chunked_loop-Keeps fuel chunk_size))
        l p

  -- The end of a round of the trailers.
  ends_or_Keeps :
      (b : Bool) (again : Coro Link (Unit {0}))
      → Keeps OfWriter again
      → Keeps {A = Unit {0}} OfWriter (elim b [ true ↦ pure tt | false ↦ again ])
  ends_or_Keeps true again rest l p = p
  ends_or_Keeps false again rest l p = rest l p

  trailer_loop-Keeps : (fuel : ℕ) → Keeps OfWriter (trailer_loop fuel)
  unfolding trailer_loop
  trailer_loop-Keeps zero l p = p
  trailer_loop-Keeps (suc fuel) l p =
      Keeps-bind OfWriter recv_line _ recv_line-Keeps
        (λ line. Keeps-bind OfWriter (send line) _ (send-Keeps line) (λ _.
          Keeps-bind OfWriter flush _ flush-Keeps (λ _.
            ends_or_Keeps (text_eq line (codes "\r\n")) (trailer_loop fuel)
              (trailer_loop-Keeps fuel))))
        l p

  pub stream_chunked-Keeps : (fuel chunk_size : ℕ) → Keeps OfWriter (stream_chunked fuel chunk_size)
  unfolding stream_chunked
  stream_chunked-Keeps fuel chunk_size =
      Keeps-bind OfWriter (chunked_loop fuel chunk_size 0) _ (chunked_loop-Keeps fuel chunk_size 0)
        (λ total. Keeps-bind OfWriter (send (codes "0\r\n")) _ (send-Keeps (codes "0\r\n")) (λ _.
          Keeps-bind OfWriter flush _ flush-Keeps (λ _.
            Keeps-bind OfWriter (trailer_loop fuel) _ (trailer_loop-Keeps fuel) (λ _ l p. p))))
