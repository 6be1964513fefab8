-- ===== src/ProxyServer/Stopping.antt =====
-- What a stop and a failed reload leave: new clients are refused.
use nginx_remake_v.Prelude.{
  ltb→lt, ℕ, zero, suc, ◌+◌, ◌/◌, ◌≤◌, ◌<◌, ◌≡◌, refl, sym, ap, ◌∙◌, ◌≢◌, ◌⊎◌, inl, inr, Bool, true,
  false, Option, none, some, List, [], ◌++◌, arith, ltb, eqb, if◌then◌else◌, eqb_iff, Bool-cases,
  Text, number_keys, text_keys,
}
use nginx_remake_v.Exec.{Result, ok, err, spinning, resume}
use nginx_remake_v.Stream
use nginx_remake_v.Stream.{StreamWriter}
use nginx_remake_v.Messages.{error_response, send_error_response}
use nginx_remake_v.Messages.ErrorResponse.{send_error_response-sends, send_error_response-ends}
use nginx_remake_v.RateLimiter.{Readings}
use nginx_remake_v.UpstreamPool.{Upstream, is_valid_init, get_next_alive}
use nginx_remake_v.UpstreamPool.Status.{upstreams_pool_invalid, shutdown_selects_none}
use nginx_remake_v.ClientHandler.{ClientHandler}
use nginx_remake_v.ProxyServer.{
  ReverseProxy, Connection, Turn, answer_error, send_error, close_writer, handle_connection,
}
use nginx_remake_v.ProxyServer.Control.{polls, stop, NewConfig, change_pool, reload_config}

-- The client has got the error, whether or not the network took it, and nothing else happened.
pub record Turned (code : ℕ) (c : Connection) (x : Result (Unit {0}) × Connection) : Type 0 where
  pub told : x.1.writer.written ≡ c.writer.written ++ error_response code
  pub untouched : x.1.server ≡ c.server
  pub ends : x.0 ≢ spinning
  pub shut : x.0 ≡ ok tt → x.1.writer.closing ≡ true

answered-Turned :
    (code : ℕ) (c : Connection) (y : Result ℕ × StreamWriter)
    → y.1.written ≡ c.writer.written ++ error_response code
    → y.0 ≢ spinning
    → Turned code c (resume y.0 (λ _. close_writer) (record c { writer = y.1 }))
unfolding close_writer Stream.close
answered-Turned code c (ok n, w) told ends = record {
  told = told;
  untouched = refl;
  ends = λ e. cc;
  shut = λ e. refl;
}
answered-Turned code c (err x, w) told ends = record {
  told = told;
  untouched = refl;
  ends = λ e. cc;
  shut = λ e. cc;
}
answered-Turned code c (spinning, w) told ends = absurd (ends refl)

send_error-Turned :
    (code : ℕ) (c : Connection) → c.writer.closing ≡ false → Turned code c (send_error code c)
unfolding send_error answer_error
send_error-Turned code c open' =
    let (sent, same) = send_error_response-sends code c.writer in
    answered-Turned code c (send_error_response code c.writer)
      (elim sent [ inl e ↦ e | inr (e, shut) ↦ cc ]) (send_error_response-ends code c.writer)

stop_flag :
    (active : ℕ → ℕ) (running : List ℕ) (s : ReverseProxy)
    → (stop active running s).server.is_shutting_down ≡ true
unfolding stop
stop_flag active running s = elim (Bool-cases s.is_shutting_down) [
  | inl y ↦ ground (arith, y)
  | inr n ↦ ground (arith, n)
]

-- Once the stop has begun, handle_connection writes exactly the response 503 to a new client whose
-- writer is open, closes it if that is no exception, ends, and leaves the server as it is.
pub stop-refuses :
    (active : ℕ → ℕ) (running : List ℕ) (ms : ℕ) (turn : ℕ → Turn)
    (serve : ℕ → ClientHandler → Result Bool × ClientHandler) (task : ℕ) (peer : Option Text)
    (t : Readings) (c : Connection)
    → c.writer.closing ≡ false
    → let c' : Connection = record c { server = (stop active running c.server).server } in
      Turned 503 c' (handle_connection ms turn serve task peer t c')
unfolding handle_connection
stop-refuses active running ms turn serve task peer t c open' =
    rw (stop_flag active running c.server) (send_error-Turned 503 _ open')

-- `_stop` sleeps while connections are active, not longer than the total timeout, and cancels the
-- tasks that are left only if some are active then.
polls_lem :
    (k n : ℕ) (active : ℕ → ℕ)
    → let m = polls k n active in
      (m ≤ n + k) × ((active m ≡ 0) ⊎ (m ≡ n + k)) × ((i : ℕ) → n ≤ i → i < m → active i ≢ 0)
unfolding polls
polls_lem zero n active = (omega arith, inr (omega arith), λ i a b. absurd (omega arith))
polls_lem (suc k) n active = elim (Bool-cases (eqb (active n) 0)) [
  | inl y ↦ rw y (omega arith, inl ((eqb_iff (active n) 0).0 y), λ i a b. absurd (omega arith))
  | inr y ↦
      let (few, ends, busy) = polls_lem k (n + 1) active in
      rw y (
        omega arith,
        elim ends [ inl e ↦ inl e | inr e ↦ inr (omega arith) ],
        λ i a b. elim (Bool-cases (eqb i n)) [
          | inl same ↦ λ e. absurd (idle n y (ap active (sym ((eqb_iff i n).0 same)) ∙ e))
          | inr other ↦ busy i (above n i a other) b
        ],
      )
]
  where
    idle : (j : ℕ) → eqb (active j) 0 ≡ false → active j ≢ 0
    idle j h e = ground (arith, h, e)

    above : (j i : ℕ) → j ≤ i → eqb i j ≡ false → j + 1 ≤ i
    above j i a h = ground (arith, h)

-- The tasks that `_stop` cancels, where the wait ended after `m` sleeps with `a` connections active.
cancels :
    (m limit a : ℕ) (running : List ℕ)
    → (a ≡ 0) ⊎ (m ≡ 0 + limit)
    → let cancelled : List ℕ = if ltb 0 a then running else [] in
      ((a ≡ 0) × (cancelled ≡ [])) ⊎ ((0 < a) × (m ≡ limit) × (cancelled ≡ running))
cancels m limit a running ends = elim (Bool-cases (ltb 0 a)) [
  | inl some' ↦ inr (
    ltb→lt 0 a some',
    elim ends [ inl e ↦ absurd (nothing some' e) | inr e ↦ omega arith ],
    rw some' refl,
  )
  | inr none' ↦ inl (ground (arith, none'), rw none' refl)
]
  where
    nothing : ltb 0 a ≡ true → a ≢ 0
    nothing h e = ground (arith, h, e)

-- A first stop sleeps only while connections are active, at most as many tenths of a second as the
-- total timeout has; it cancels the tasks that are left where it slept so long, and none where no
-- connection is active; a second stop does nothing.
pub stop_waits :
    (active : ℕ → ℕ) (running : List ℕ) (s : ReverseProxy)
    → s.is_shutting_down ≡ false
    → let d = stop active running s in
      (d.sleeps ≤ s.timeouts.total_ms / 100)
      × ((i : ℕ) → i < d.sleeps → active i ≢ 0)
      × (((active d.sleeps ≡ 0) × (d.cancelled ≡ []))
          ⊎ ((0 < active d.sleeps)
              × (d.sleeps ≡ s.timeouts.total_ms / 100)
              × (d.cancelled ≡ running)))
      × (stop active running d.server ≡ record { sleeps = 0; cancelled = []; server = d.server })
unfolding stop
stop_waits active running s fresh =
    let (few, ends, busy) = polls_lem (s.timeouts.total_ms / 100) 0 active in
    simp fresh (
      omega arith,
      (λ i b. busy i (omega arith) b),
      cancels (polls (s.timeouts.total_ms / 100) 0 active) (s.timeouts.total_ms / 100)
          (active (polls (s.timeouts.total_ms / 100) 0 active)) running ends,
      refl,
    )

-- A reload with a configuration that the new pool refuses, as one that names an upstream twice,
-- leaves the old pool shut down, so that no upstream is chosen any more, with the old rate limiter
-- and the new keep-alive.
pub reload_duplicate :
    (second : ℕ) (c : NewConfig) (s : ReverseProxy) (excluded : List Upstream) (clock : ℕ → ℕ)
    → is_valid_init c.upstreams c.max_conns_per_upstream ≡ false
    → let s' = reload_config second (ok c) s in
      ((get_next_alive s'.pool excluded clock).0 ≡ ok none)
      × (s'.pool.is_shutdown ≡ true)
      × (s'.rate_limiter ≡ s.rate_limiter)
      × (s'.keepalive ≡ c.keep_alive)
unfolding reload_config change_pool
reload_duplicate second c s excluded clock bad =
    rw
      (upstreams_pool_invalid c.upstreams c.max_conns_per_upstream (some c.circuit_breaker)
        (some c.upstream_keepalive) second bad)
      (
        (shutdown_selects_none s.pool excluded clock).0,
        (shutdown_selects_none s.pool excluded clock).1,
        refl,
        refl,
      )
