-- ===== src/ProxyServer/Rounds.antt =====
-- The requests of one connection are no more than max_requests.
use nginx_remake_v.Prelude.{
  ℕ, zero, suc, ◌+◌, ◌<◌, ◌≡◌, refl, ap, ◌∙◌, Bool, true, false, not, ◌&&◌, Option, none, some, [],
  arith, leb, if◌then◌else◌, Text, number_keys, text_keys,
}
use nginx_remake_v.Exec.{
  timeout_error, body_streamer_error, connection_refused, connection_reset, os_error, runtime_error,
  value_error, incomplete_read, index_error, Result, ok, err, spinning, Coro, resume, ◌>>=◌,
}
use nginx_remake_v.RateLimiter.{RateLimiter, Readings, allow}
use nginx_remake_v.UpstreamPool.{Upstream, UpstreamsPool, get_next_alive}
use nginx_remake_v.ClientHandler.{ClientHandler}
use nginx_remake_v.ProxyServer.{
  Connection, Turn, send_error, pick, new_handler, with_handler, notice, after_handler, serve_with,
  request_loop, recovered, finish, admit, accept, limited, handle_connection,
}

branch_agree {ℓ} :
    {A : Type ℓ} (b : Bool) (x y z : A)
    → (b ≡ false → y ≡ z)
    → (if b then x else y) ≡ (if b then x else z)
branch_agree true x y z same = refl
branch_agree false x y z same = same refl

after_handler_agree :
    (ms now : ℕ) (f g : Bool → Coro Connection (Unit {0})) (c : Connection)
    (x : Result Bool × ClientHandler)
    → ((k : Bool) → f k (with_handler c x.1) ≡ g k (with_handler c x.1))
    → after_handler ms now f c x ≡ after_handler ms now g c x
unfolding after_handler
after_handler_agree ms now f g c (ok k, h) same =
    branch_agree h.client_writer.closing (ok tt, with_handler c h) _ _ (λ open'. same k)
after_handler_agree ms now f g c (err timeout_error, h) same = refl
after_handler_agree ms now f g c (err body_streamer_error, h) same = refl
after_handler_agree ms now f g c (err connection_refused, h) same = refl
after_handler_agree ms now f g c (err connection_reset, h) same = refl
after_handler_agree ms now f g c (err (os_error n), h) same = refl
after_handler_agree ms now f g c (err runtime_error, h) same = refl
after_handler_agree ms now f g c (err value_error, h) same = refl
after_handler_agree ms now f g c (err incomplete_read, h) same = refl
after_handler_agree ms now f g c (err index_error, h) same = refl
after_handler_agree ms now f g c (spinning, h) same = refl

picked_agree :
    (c : Connection) (y : Result (Option Upstream) × UpstreamsPool)
    (f g : Option Upstream → Coro Connection (Unit {0}))
    → ((o : Option Upstream) (p : UpstreamsPool)
        → let c' : Connection = record c { server = record c.server { pool = p } } in
          f o c' ≡ g o c')
    → let c' : Connection = record c { server = record c.server { pool = y.1 } } in
      resume y.0 f c' ≡ resume y.0 g c'
picked_agree c (ok o, p) f g same = same o p
picked_agree c (err e, p) f g same = refl
picked_agree c (spinning, p) f g same = refl

module _ (ms : ℕ) (turn : ℕ → Turn) (serve serve' : ℕ → Coro ClientHandler Bool) (limit : ℕ)
    (agree : (n : ℕ) (h : ClientHandler) → n < limit → serve n h ≡ serve' n h) where
  serve_with_agree :
      (f g : Bool → Coro Connection (Unit {0})) (n : ℕ) (o : Option Upstream) (c : Connection)
      → n < limit
      → ((k : Bool) (h : ClientHandler) → f k (with_handler c h) ≡ g k (with_handler c h))
      → serve_with ms turn serve f n o c ≡ serve_with ms turn serve' g n o c
  unfolding serve_with
  serve_with_agree f g n none c few same = refl
  serve_with_agree f g n (some u) c few same =
      let h = new_handler c u (turn n).made_at in
      after_handler_agree ms (turn n).cut_at f g c (serve n h) (λ k. same k (serve n h).1)
      ∙ ap (after_handler ms (turn n).cut_at g c) (agree n h few)

  request_loop_agree :
      (k handled : ℕ) (keep : Bool) (c : Connection)
      → c.server.keepalive.max_requests ≡ limit
      → request_loop ms turn serve k handled keep c ≡ request_loop ms turn serve' k handled keep c
  unfolding request_loop pick notice with_handler
  request_loop_agree zero handled keep c same = refl
  request_loop_agree (suc k) handled keep c same =
      let c' = notice (turn handled) c in
      let stop : Result (Unit {0}) × Connection = (ok tt, c') in
      let next : (ℕ → Coro ClientHandler Bool) → Result (Unit {0}) × Connection = λ f.
        (pick (turn handled).chosen_at
            >>= serve_with ms turn f (request_loop ms turn f k (handled + 1)) handled)
          c' in
      let full = leb c'.server.keepalive.max_requests handled in
      branch_agree (not (keep && not c'.server.is_shutting_down)) stop
        (if full then stop else next serve) (if full then stop else next serve')
        (λ running. branch_agree full stop (next serve) (next serve') (λ more.
          picked_agree c' (get_next_alive c'.server.pool [] (turn handled).chosen_at)
            (serve_with ms turn serve (request_loop ms turn serve k (handled + 1)) handled)
            (serve_with ms turn serve' (request_loop ms turn serve' k (handled + 1)) handled)
            (λ o p.
              serve_with_agree (request_loop ms turn serve k (handled + 1))
                (request_loop ms turn serve' k (handled + 1)) handled o _
                (below c.server.keepalive.max_requests handled same more)
                (λ keep' h. request_loop_agree k (handled + 1) keep' _ same))))
    where
      below : (m n : ℕ) → m ≡ limit → leb m n ≡ false → n < limit
      below m n e h = ground (arith, e, h)

  accept_agree :
      (task : ℕ) (c : Connection)
      → c.server.keepalive.max_requests ≡ limit
      → accept ms turn serve task c ≡ accept ms turn serve' task c
  unfolding accept admit
  accept_agree task c same = go c.server.permits
    where
      loop : (ℕ → Coro ClientHandler Bool) → ℕ → Result (Unit {0}) × Connection
      loop f left =
          request_loop ms turn f (c.server.keepalive.max_requests + 1) 0 true (admit task left c)

      go :
          (n : ℕ)
          → (elim n as (λ x. Result (Unit {0}) × Connection) [
            | zero ↦ (spinning, c)
            | suc left ↦ finish task (recovered (loop serve left))
          ])
            ≡ (elim n as (λ x. Result (Unit {0}) × Connection) [
              | zero ↦ (spinning, c)
              | suc left ↦ finish task (recovered (loop serve' left))
            ])
      go zero = refl
      go (suc left) =
          ap (λ (x : Result (Unit {0}) × Connection). finish task (recovered x))
            (request_loop_agree (c.server.keepalive.max_requests + 1) 0 true (admit task left c)
              same)

  limited_agree :
      (task : ℕ) (b : Bool) (c : Connection)
      → c.server.keepalive.max_requests ≡ limit
      → limited ms turn serve task b c ≡ limited ms turn serve' task b c
  unfolding limited
  limited_agree task true c same = accept_agree task c same
  limited_agree task false c same = refl

-- Handlers that agree on the first max_requests requests of a connection bring handle_connection
-- to the same end: it makes no more of them.
pub max_requests_agree :
    (ms : ℕ) (turn : ℕ → Turn) (serve serve' : ℕ → Coro ClientHandler Bool) (task : ℕ)
    (peer : Option Text) (t : Readings) (c : Connection)
    → ((n : ℕ) (h : ClientHandler) → n < c.server.keepalive.max_requests → serve n h ≡ serve' n h)
    → handle_connection ms turn serve task peer t c ≡ handle_connection ms turn serve' task peer t c
unfolding handle_connection
max_requests_agree ms turn serve serve' task peer t c agree =
    branch_agree c.server.is_shutting_down (send_error 503 c) _ _
      (λ running. go c.server.rate_limiter)
  where
    go :
        (o : Option RateLimiter)
        → (elim o as (λ x. Result (Unit {0}) × Connection) [
          | none ↦ accept ms turn serve task c
          | some r ↦
              limited ms turn serve task
                (allow r peer t).0
                (record c { server = record c.server { rate_limiter = some (allow r peer t).1 } })
        ])
          ≡ (elim o as (λ x. Result (Unit {0}) × Connection) [
            | none ↦ accept ms turn serve' task c
            | some r ↦
                limited ms turn serve' task
                  (allow r peer t).0
                  (record c { server = record c.server { rate_limiter = some (allow r peer t).1 } })
          ])
    go none = accept_agree ms turn serve serve' c.server.keepalive.max_requests agree task c refl
    go (some r) =
        limited_agree ms turn serve serve' c.server.keepalive.max_requests agree task
          (allow r peer t).0
          (record c { server = record c.server { rate_limiter = some (allow r peer t).1 } }) refl
