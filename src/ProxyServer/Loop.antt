-- ===== src/ProxyServer/Loop.antt =====
-- The loop over the requests of one client ends, and leaves the counts of the server alone.
use nginx_remake_v.Prelude.{
  ℕ, zero, suc, ◌+◌, ◌≤◌, ◌<◌, ◌≡◌, refl, ap, ◌∙◌, ◌≢◌, Bool, true, false, Option, none, some, [],
  arith, leb, if◌then◌else◌, number_keys, text_keys,
}
use nginx_remake_v.Exec.{
  Exception, timeout_error, body_streamer_error, connection_refused, connection_reset, os_error,
  runtime_error, value_error, incomplete_read, index_error, Result, ok, err, spinning, Coro, resume,
}
use nginx_remake_v.Stream.{StreamWriter}
use nginx_remake_v.Messages.{send_error_response}
use nginx_remake_v.Messages.ErrorResponse.{send_error_response-ends}
use nginx_remake_v.UpstreamPool.{Upstream, UpstreamsPool, get_next_alive}
use nginx_remake_v.UpstreamPool.Status.{get_next_alive_ends}
use nginx_remake_v.ClientHandler.Recording.{record_metrics_active}
use nginx_remake_v.ClientHandler.{ClientHandler, KeepAliveConfig, client_handler, record_metrics}
use nginx_remake_v.ProxyServer.{
  ReverseProxy, Connection, Turn, answer_error, send_error, close_writer, pick, new_handler,
  with_handler, notice, time_out, after_handler, serve_with, request_loop, recover, recovered,
}

-- What the server asks of its handlers: they end, by themselves or by the total timeout, and leave the
-- count of active connections alone.
pub record Serves (serve : ℕ → Coro ClientHandler Bool) : Type 0 where
  pub ends : (n : ℕ) (h : ClientHandler) → (serve n h).0 ≢ spinning
  pub quiet :
      (n : ℕ) (h : ClientHandler)
      → (serve n h).1.metrics.active_connections ≡ h.metrics.active_connections

-- Two servers with the same free permits, tasks, active connections and configuration of keep-alive.
pub record Same (g s : ReverseProxy) : Type 0 where
  pub permits : s.permits ≡ g.permits
  pub tasks : s.client_tasks ≡ g.client_tasks
  pub active : s.metrics.active_connections ≡ g.metrics.active_connections
  pub keepalive : s.keepalive ≡ g.keepalive

-- It has ended, and the server is as it was.
pub record Kept (g : ReverseProxy) (x : Result (Unit {0}) × Connection) : Type 0 where
  pub same : Same g x.1.server
  pub ends : x.0 ≢ spinning

pub Same-refl : (s : ReverseProxy) → Same s s
Same-refl s = record { permits = refl; tasks = refl; active = refl; keepalive = refl }

returned : (g : ReverseProxy) (c : Connection) → Same g c.server → Kept g (ok tt, c)
returned g c s = record { same = s; ends = λ e. cc }

raised : (g : ReverseProxy) (e : Exception) (c : Connection) → Same g c.server → Kept g (err e, c)
raised g e c s = record { same = s; ends = λ f. cc }

branch-Kept :
    (g : ReverseProxy) (b : Bool) (x y : Result (Unit {0}) × Connection)
    → Kept g x
    → (b ≡ false → Kept g y)
    → Kept g (if b then x else y)
branch-Kept g true x y p q = p
branch-Kept g false x y p q = q refl

answered-Kept :
    (g : ReverseProxy) (c : Connection) (y : Result ℕ × StreamWriter)
    → Same g c.server
    → y.0 ≢ spinning
    → Kept g (resume y.0 (λ _. close_writer) (record c { writer = y.1 }))
unfolding close_writer
answered-Kept g c (ok n, w) s ends = returned g _ s
answered-Kept g c (err x, w) s ends = raised g x _ s
answered-Kept g c (spinning, w) s ends = absurd (ends refl)

send_error-Kept :
    (g : ReverseProxy) (code : ℕ) (c : Connection) → Same g c.server → Kept g (send_error code c)
unfolding send_error answer_error
send_error-Kept g code c s =
    answered-Kept g c (send_error_response code c.writer) s (send_error_response-ends code c.writer)

with_handler-Same :
    (g : ReverseProxy) (c : Connection) (h : ClientHandler)
    → Same g c.server
    → h.metrics.active_connections ≡ c.server.metrics.active_connections
    → Same g (with_handler c h).server
unfolding with_handler
with_handler-Same g c h s e = record {
  permits = s.permits;
  tasks = s.tasks;
  active = e ∙ s.active;
  keepalive = s.keepalive;
}

time_out-Kept :
    (g : ReverseProxy) (ms now : ℕ) (c : Connection) (h : ClientHandler)
    → Same g c.server
    → h.metrics.active_connections ≡ c.server.metrics.active_connections
    → Kept g (time_out ms now c h)
unfolding time_out
time_out-Kept g ms now c h s e =
    let s' =
      with_handler-Same g c (record_metrics ms now h) s (record_metrics_active ms now h ∙ e) in
    let c' = with_handler c (record_metrics ms now h) in
    branch-Kept g h.response_committed (ok tt, c') (send_error 504 c') (returned g c' s')
      (λ uncommitted. send_error-Kept g 504 c' s')

after_handler-Kept :
    (g : ReverseProxy) (ms now : ℕ) (again : Bool → Coro Connection (Unit {0})) (c : Connection)
    (x : Result Bool × ClientHandler)
    → Same g c.server
    → x.1.metrics.active_connections ≡ c.server.metrics.active_connections
    → x.0 ≢ spinning
    → ((k : Bool) (c' : Connection) → Same g c'.server → Kept g (again k c'))
    → Kept g (after_handler ms now again c x)
unfolding after_handler
after_handler-Kept g ms now again c (ok k, h) s e ends rest =
    let c' = with_handler c h in
    let s' = with_handler-Same g c h s e in
    branch-Kept g h.client_writer.closing (ok tt, c') (again k c') (returned g c' s')
      (λ open'. rest k c' s')
after_handler-Kept g ms now again c (err timeout_error, h) s e ends rest =
    time_out-Kept g ms now c h s e
after_handler-Kept g ms now again c (err body_streamer_error, h) s e ends rest =
    raised g _ _ (with_handler-Same g c h s e)
after_handler-Kept g ms now again c (err connection_refused, h) s e ends rest =
    raised g _ _ (with_handler-Same g c h s e)
after_handler-Kept g ms now again c (err connection_reset, h) s e ends rest =
    raised g _ _ (with_handler-Same g c h s e)
after_handler-Kept g ms now again c (err (os_error n), h) s e ends rest =
    raised g _ _ (with_handler-Same g c h s e)
after_handler-Kept g ms now again c (err runtime_error, h) s e ends rest =
    raised g _ _ (with_handler-Same g c h s e)
after_handler-Kept g ms now again c (err value_error, h) s e ends rest =
    raised g _ _ (with_handler-Same g c h s e)
after_handler-Kept g ms now again c (err incomplete_read, h) s e ends rest =
    raised g _ _ (with_handler-Same g c h s e)
after_handler-Kept g ms now again c (err index_error, h) s e ends rest =
    raised g _ _ (with_handler-Same g c h s e)
after_handler-Kept g ms now again c (spinning, h) s e ends rest = absurd (ends refl)

notice-Same :
    (g : ReverseProxy) (t : Turn) (c : Connection) → Same g c.server → Same g (notice t c).server
unfolding notice
notice-Same g t c s = record {
  permits = s.permits;
  tasks = s.tasks;
  active = s.active;
  keepalive = s.keepalive;
}

picked-Kept :
    (g : ReverseProxy) (c : Connection) (y : Result (Option Upstream) × UpstreamsPool)
    (rest : Option Upstream → Coro Connection (Unit {0}))
    → Same g c.server
    → y.0 ≢ spinning
    → ((o : Option Upstream) (c' : Connection) → Same g c'.server → Kept g (rest o c'))
    → Kept g (resume y.0 rest (record c { server = record c.server { pool = y.1 } }))
picked-Kept g c (ok o, p) rest s ends go =
    go o _
      (record { permits = s.permits; tasks = s.tasks; active = s.active; keepalive = s.keepalive })
picked-Kept g c (err e, p) rest s ends go =
    raised g e _
      (record { permits = s.permits; tasks = s.tasks; active = s.active; keepalive = s.keepalive })
picked-Kept g c (spinning, p) rest s ends go = absurd (ends refl)

below :
    (a b : KeepAliveConfig) (n : ℕ) → a ≡ b → leb a.max_requests n ≡ false → n + 1 ≤ b.max_requests
below a b n e h =
    let same = ap (λ (x : KeepAliveConfig). x.max_requests) e in ground (arith, h, same)

module _ (ms : ℕ) (turn : ℕ → Turn) (serve : ℕ → Coro ClientHandler Bool) (serves : Serves serve)
    (g : ReverseProxy) where
  serve_with-Kept :
      (again : Bool → Coro Connection (Unit {0})) (n : ℕ) (o : Option Upstream) (c : Connection)
      → Same g c.server
      → ((k : Bool) (c' : Connection) → Same g c'.server → Kept g (again k c'))
      → Kept g (serve_with ms turn serve again n o c)
  unfolding serve_with new_handler client_handler
  serve_with-Kept again n none c s rest = send_error-Kept g 503 c s
  serve_with-Kept again n (some u) c s rest =
      let h = new_handler c u (turn n).made_at in
      after_handler-Kept g ms (turn n).cut_at again c (serve n h) s (serves.quiet n h)
        (serves.ends n h) rest

  -- With fuel for the rounds that max_requests leaves.
  pub request_loop-Kept :
      (k handled : ℕ) (keep : Bool) (c : Connection)
      → Same g c.server
      → handled ≤ g.keepalive.max_requests
      → g.keepalive.max_requests < k + handled
      → Kept g (request_loop ms turn serve k handled keep c)
  unfolding request_loop pick
  request_loop-Kept zero handled keep c s few fuel = absurd (omega arith)
  request_loop-Kept (suc k) handled keep c s few fuel =
      let c' = notice (turn handled) c in
      let s' = notice-Same g (turn handled) c s in
      branch-Kept g _ _ _ (returned g c' s') (λ running.
        branch-Kept g _ _ _ (returned g c' s') (λ more.
          picked-Kept g c' (get_next_alive c'.server.pool [] (turn handled).chosen_at)
            (serve_with ms turn serve (request_loop ms turn serve k (handled + 1)) handled) s'
            (get_next_alive_ends c'.server.pool [] (turn handled).chosen_at)
            (λ o c'' s''.
              serve_with-Kept (request_loop ms turn serve k (handled + 1)) handled o c'' s''
                (λ keep' d t.
                  request_loop-Kept k (handled + 1) keep' d t
                    (below c'.server.keepalive g.keepalive handled s'.keepalive more)
                    (omega arith)))))

  recover-Kept : (e : Exception) (c : Connection) → Same g c.server → Kept g (recover e c)
  unfolding recover
  recover-Kept timeout_error c s = returned g c s
  recover-Kept body_streamer_error c s = raised g _ c s
  recover-Kept connection_refused c s = returned g c s
  recover-Kept connection_reset c s = returned g c s
  recover-Kept (os_error n) c s = returned g c s
  recover-Kept runtime_error c s = send_error-Kept g 503 c s
  recover-Kept value_error c s = send_error-Kept g 503 c s
  recover-Kept incomplete_read c s = raised g _ c s
  recover-Kept index_error c s = raised g _ c s

  pub recovered-Kept : (x : Result (Unit {0}) × Connection) → Kept g x → Kept g (recovered x)
  unfolding recovered
  recovered-Kept (ok a, c) p = returned g c p.same
  recovered-Kept (err e, c) p = recover-Kept e c p.same
  recovered-Kept (spinning, c) p = absurd (p.ends refl)
