-- ===== src/ClientHandler/Permits.antt =====
-- A handled request takes no connection with it: the permits of every pool are as before.
use nginx_remake_v.Prelude.{
  ℕ, ◌+◌, ◌≡◌, refl, ap, ◌∙◌, inl, inr, Bool, true, false, ◌&&◌, Option, none, some, [], ◌∷◌, ◌++◌,
  ltb, leb, Bool-cases, number_keys, text_keys,
}
use nginx_remake_v.Prelude.Dict.{Dict}
use nginx_remake_v.Exec.{Result, ok, err, spinning, Coro, pure, ◌>>=◌, ◌>>◌}
use nginx_remake_v.Exec.Rules.{Keeps, Keeps-bind}
use nginx_remake_v.Stream.{StreamWriter}
use nginx_remake_v.Headers.{HttpRequest}
use nginx_remake_v.Messages.{HttpResponse, response_to_bytes, request_to_bytes, send_error_response}
use nginx_remake_v.ConnectionPool.{PerUpstreamPool}
use nginx_remake_v.UpstreamPool.{Upstream, UpstreamsPool}
use nginx_remake_v.Metrics.{ProxyMetrics}
use nginx_remake_v.ClientHandler.{
  Settings, ClientHandler, should_retry, modify_request_headers, modify_response_headers,
  fail_request, retry_delay, answered,
}
use nginx_remake_v.ClientHandler.Attempt.{
  Serving, Outcome, finished, gave_up, again, of_handler, update, lift, send_up, drain_up, close_up,
  commit, drain_client, read_response_headers, forward_request, forward_response, give_up, chosen,
  move_on, retry, pass_on, route, on_response, on_headers, exchange,
}
use nginx_remake_v.UpstreamPool.Permits.{get_next_alive_pools}

-- What record_metrics writes to, and when the request began.
abbrev pub Ledger : Type 0
Ledger = ProxyMetrics × Bool × ℕ

abbrev pub ledger : ClientHandler → Ledger
ledger h = (h.metrics, h.metrics_recorded, h.start_request_time)

pub fail_request_pool : (code : ℕ) (h : ClientHandler) → (fail_request code h).1.pool ≡ h.pool
unfolding fail_request
fail_request_pool code h = elim (Bool-cases h.response_committed) [
  | inl c ↦ simp c
  | inr c ↦ simp c (
      answered_pool
        (record h { response_committed = true; successful_request = false; status_code = code })
        (send_error_response code h.client_writer))
]
  where
    answered_pool :
        (k : ClientHandler) (x : Result ℕ × StreamWriter) → (answered k x).1.pool ≡ k.pool
    answered_pool k (ok n, w) = unfold answered in refl
    answered_pool k (err e, w) = unfold answered in refl
    answered_pool k (spinning, w) = unfold answered in refl

pub ledger-fail_request : (code : ℕ) (h : ClientHandler) → ledger (fail_request code h).1 ≡ ledger h
unfolding fail_request
ledger-fail_request code h = elim (Bool-cases h.response_committed) [
  | inl c ↦ simp c
  | inr c ↦ simp c (
      ledger-answered
        (record h { response_committed = true; successful_request = false; status_code = code })
        (send_error_response code h.client_writer))
]
  where
    ledger-answered :
        (k : ClientHandler) (x : Result ℕ × StreamWriter) → ledger (answered k x).1 ≡ ledger k
    ledger-answered k (ok n, w) = unfold answered in refl
    ledger-answered k (err e, w) = unfold answered in refl
    ledger-answered k (spinning, w) = unfold answered in refl

module _ (s : Settings) (d : Dict Upstream PerUpstreamPool) (m : Ledger) where
  -- The pools of connections and the ledger are those, while a connection is held.
  abbrev pub Holds : Serving → Type 0
  Holds v = (v.handler.pool.pools ≡ d) × (ledger v.handler ≡ m)

  give_up-Holds : Keeps Holds (give_up s)
  unfolding give_up of_handler close_up
  give_up-Holds =
      Keeps-bind Holds (of_handler (fail_request 502)) (λ _. close_up >> pure gave_up)
        (λ v e. (
          ap (λ (p : UpstreamsPool). p.pools) (fail_request_pool 502 v.handler) ∙ e.0,
          ledger-fail_request 502 v.handler ∙ e.1,
        ))
        (λ _ v e. e)

  chosen_pool :
      (x : Result (Option Upstream)) (pool : UpstreamsPool) (h : ClientHandler)
      → (chosen s x pool h).1.pool ≡ pool
  unfolding chosen
  chosen_pool (ok (some u)) pool h = refl
  chosen_pool (ok none) pool h = refl
  chosen_pool (err e) pool h = refl
  chosen_pool spinning pool h = refl

  ledger-chosen :
      (x : Result (Option Upstream)) (pool : UpstreamsPool) (h : ClientHandler)
      → ledger (chosen s x pool h).1 ≡ ledger h
  unfolding chosen
  ledger-chosen (ok (some u)) pool h = refl
  ledger-chosen (ok none) pool h = refl
  ledger-chosen (err e) pool h = refl
  ledger-chosen spinning pool h = refl

  retry-Holds : (clock : ℕ → ℕ) (n : ℕ) → Keeps Holds (retry s clock n)
  unfolding retry of_handler close_up update move_on
  retry-Holds clock n =
      Keeps-bind Holds (of_handler (move_on s clock))
        (λ _.
          close_up
          >> (update (λ h. record h { sleeps = h.sleeps ++ retry_delay s n ∷ [] }) >> pure again))
        (λ v e. (
          ap (λ (p : UpstreamsPool). p.pools) (chosen_pool _ _ v.handler)
              ∙ get_next_alive_pools v.handler.pool (v.handler.upstream ∷ []) clock
              ∙ e.0,
          ledger-chosen _ _ v.handler ∙ e.1,
        ))
        (λ _ v e. e)

  pass_on-Holds : (resp : HttpResponse) (keep : Bool) → Keeps Holds (pass_on s resp keep)
  unfolding pass_on lift update commit of_handler drain_client forward_response
  pass_on-Holds resp keep =
      let send : Coro Serving Outcome = forward_response s resp >>= λ k.
      update (λ h. record h { bytes_out = h.bytes_out + k }) >> pure finished in
      Keeps-bind Holds (lift (response_to_bytes (modify_response_headers s resp keep)))
        (λ head. update (commit head) >> (of_handler drain_client >> send)) (λ v e. e)
        (λ head.
          Keeps-bind Holds (update (commit head)) (λ _. of_handler drain_client >> send) (λ v e. e)
            (λ _.
              Keeps-bind Holds (of_handler drain_client) (λ _. send) (λ v e. e)
                (λ _.
                  Keeps-bind Holds (forward_response s resp)
                    (λ k. update (λ h. record h { bytes_out = h.bytes_out + k }) >> pure finished)
                    (λ v e. e) (λ k v e. e))))

  route-Holds :
      (r f keep : Bool) (clock : ℕ → ℕ) (n : ℕ) (resp : HttpResponse)
      → Keeps Holds (route s r f keep clock n resp)
  unfolding route
  route-Holds true f keep clock n resp = retry-Holds clock n
  route-Holds false true keep clock n resp = give_up-Holds
  route-Holds false false keep clock n resp = pass_on-Holds resp keep

  on_headers-Holds :
      (req : HttpRequest) (keep : Bool) (clock : ℕ → ℕ) (n : ℕ) (resp : Option HttpResponse)
      → Keeps Holds (on_headers s req keep clock n resp)
  unfolding on_headers on_response update
  on_headers-Holds req keep clock n none = give_up-Holds
  on_headers-Holds req keep clock n (some resp) =
      let again' = should_retry s req.method resp && ltb n s.retry_config.max_retries in
      let fails = leb 500 resp.status_code && ltb resp.status_code 600 in
      Keeps-bind Holds (update (λ h. record h { status_code = resp.status_code }))
        (λ _. route s again' fails keep clock n resp) (λ v e. e)
        (λ _. route-Holds again' fails keep clock n resp)

  pub exchange-Holds :
      (req : HttpRequest) (keep : Bool) (clock : ℕ → ℕ) (n : ℕ)
      → Keeps Holds (exchange s req keep clock n)
  unfolding exchange lift send_up drain_up forward_request update read_response_headers
  exchange-Holds req keep clock n =
      let ask : Coro Serving Outcome = read_response_headers s >>= on_headers s req keep clock n in
      let after_body : ℕ → Coro Serving Outcome =
        λ k. update (λ h. record h { bytes_in = h.bytes_in + k }) >> ask in
      let body : Coro Serving Outcome = forward_request s req >>= after_body in
      Keeps-bind Holds (lift (request_to_bytes (modify_request_headers s req keep)))
        (λ head. send_up head >> (drain_up >> body)) (λ v e. e)
        (λ head.
          Keeps-bind Holds (send_up head) (λ _. drain_up >> body) (λ v e. e)
            (λ _.
              Keeps-bind Holds drain_up (λ _. body) (λ v e. e)
                (λ _.
                  Keeps-bind Holds (forward_request s req) after_body (λ v e. e)
                    (λ k.
                      Keeps-bind Holds (update (λ h. record h { bytes_in = h.bytes_in + k }))
                        (λ _. ask) (λ v e. e)
                        (λ _.
                          Keeps-bind Holds (read_response_headers s) (on_headers s req keep clock n)
                            (λ v e. e) (on_headers-Holds req keep clock n))))))
