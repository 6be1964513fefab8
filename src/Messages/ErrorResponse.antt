-- ===== src/Messages/ErrorResponse.antt =====
-- What `send_error_response` leaves behind, however the drain ends.
use nginx_remake_v.Prelude.{
  ℕ, ◌≡◌, refl, ap, ◌∙◌, ◌≢◌, ◌⊎◌, inl, inr, true, false, ◌++◌, arith, Bool-cases, length,
  number_keys, text_keys,
}
use nginx_remake_v.Exec.{Result, ok, err, spinning}
use nginx_remake_v.Stream
use nginx_remake_v.Stream.{StreamWriter}
use nginx_remake_v.Stream.Writing.{drain-Drains}
use nginx_remake_v.Messages.{error_response, send_error_response, after_drain, is_os_error}

after_drain_writer : (n : ℕ) (x : Result (Unit {0}) × StreamWriter) → (after_drain n x).1 ≡ x.1
unfolding after_drain
after_drain_writer n (ok a, w) = refl
after_drain_writer n (err e, w) = refl
after_drain_writer n (spinning, w) = refl

-- The response stands behind what was written, or the writer was closed and took nothing.
pub send_error_response-sends :
    (code : ℕ) (w : StreamWriter)
    → let w' = (send_error_response code w).1 in
      ((w'.written ≡ w.written ++ error_response code)
        ⊎ ((w'.written ≡ w.written) × (w'.closing ≡ true)))
      × (w'.closing ≡ w.closing)
unfolding send_error_response
send_error_response-sends code w =
    let sent = Stream.write (error_response code) w in
    let kept = after_drain_writer (length (error_response code)) (Stream.drain sent) in
    let d = drain-Drains sent in
    let state = ap (λ (x : StreamWriter). x.closing) kept ∙ d.same_state in
    let bytes = ap (λ (x : StreamWriter). x.written) kept ∙ d.same_bytes in
    elim (Bool-cases w.closing) [
      | inl h ↦ (inr (bytes ∙ shut_bytes h, state ∙ shut_state h ∙ h), state ∙ shut_state h)
      | inr h ↦ (inl (bytes ∙ open_bytes h), state ∙ open_state h)
    ]
  where
    shut_bytes : w.closing ≡ true → (Stream.write (error_response code) w).written ≡ w.written
    shut_bytes h = unfold Stream.write in ground (arith, h)

    shut_state : w.closing ≡ true → (Stream.write (error_response code) w).closing ≡ w.closing
    shut_state h = unfold Stream.write in ground (arith, h)

    open_bytes :
        w.closing ≡ false
        → (Stream.write (error_response code) w).written ≡ w.written ++ error_response code
    open_bytes h = unfold Stream.write in ground (arith, h)

    open_state : w.closing ≡ false → (Stream.write (error_response code) w).closing ≡ w.closing
    open_state h = unfold Stream.write in ground (arith, h)

after_drain_ends :
    (n : ℕ) (x : Result (Unit {0}) × StreamWriter) → x.0 ≢ spinning → (after_drain n x).0 ≢ spinning
unfolding after_drain
after_drain_ends n (ok a, w) h = λ e. cc
after_drain_ends n (err e, w) h = elim (Bool-cases (is_os_error e)) [
  | inl y ↦ λ same. ground (arith, y, same)
  | inr y ↦ λ same. ground (arith, y, same)
]
after_drain_ends n (spinning, w) h = absurd (h refl)

-- It returns or raises.
pub send_error_response-ends :
    (code : ℕ) (w : StreamWriter) → (send_error_response code w).0 ≢ spinning
unfolding send_error_response
send_error_response-ends code w =
    after_drain_ends (length (error_response code))
      (Stream.drain (Stream.write (error_response code) w))
      (drain-Drains (Stream.write (error_response code) w)).ends
