-- ===== src/ProxyServer/Closing.antt =====
-- A client's connection ends, with everything given back: the active connections, the permit of the
-- semaphore and the task, and with the writer closed.
use nginx_remake_v.Prelude.{
  ℕ, zero, suc, ◌+◌, ◌<◌, ◌≡◌, refl, ap, ◌∙◌, ◌≢◌, Bool, true, false, Option, none, some, List, ◌∷◌,
  arith, if◌then◌else◌, Text, number_keys, text_keys,
}
use nginx_remake_v.Exec.{Result, ok, err, spinning, Coro, resume}
use nginx_remake_v.Stream
use nginx_remake_v.Stream.{StreamWriter}
use nginx_remake_v.Messages.{send_error_response}
use nginx_remake_v.Messages.ErrorResponse.{send_error_response-ends}
use nginx_remake_v.RateLimiter.{RateLimiter, Readings, allow}
use nginx_remake_v.Metrics.{ProxyMetrics, inc_active, dec_active}
use nginx_remake_v.ClientHandler.{ClientHandler}
use nginx_remake_v.ProxyServer.{
  ReverseProxy, Connection, Turn, answer_error, send_error, close_writer, request_loop, recovered,
  clean_up, finish, admit, accept, limited, discard, handle_connection,
}
use nginx_remake_v.ProxyServer.Loop.{
  Serves, Same, Kept, Same-refl, request_loop-Kept, recovered-Kept,
}

-- A connection that was accepted has ended, its writer is closed, and the server is as before it.
pub record Closed (g : ReverseProxy) (x : Result (Unit {0}) × Connection) : Type 0 where
  pub same : Same g x.1.server
  pub ends : x.0 ≢ spinning
  pub shut : x.0 ≡ ok tt → x.1.writer.closing ≡ true

one_more : {p q left : ℕ} → p ≡ left → q ≡ suc left → p + 1 ≡ q
one_more e f = omega arith

one_less :
    (m m' : ProxyMetrics)
    → m.active_connections ≡ m'.active_connections + 1
    → (dec_active m).active_connections ≡ m'.active_connections
unfolding dec_active
one_less m m' e = ground (arith, e)

discard_added : (t : ℕ) (ts : List ℕ) → discard t (t ∷ ts) ≡ ts
unfolding discard
discard_added t ts = ground arith

answered-Closed :
    (c : Connection) (y : Result ℕ × StreamWriter)
    → y.0 ≢ spinning
    → Closed c.server (resume y.0 (λ _. close_writer) (record c { writer = y.1 }))
unfolding close_writer Stream.close
answered-Closed c (ok n, w) ends = record {
  same = Same-refl c.server;
  ends = λ e. cc;
  shut = λ e. refl;
}
answered-Closed c (err x, w) ends = record {
  same = Same-refl c.server;
  ends = λ e. cc;
  shut = λ e. cc;
}
answered-Closed c (spinning, w) ends = absurd (ends refl)

send_error-Closed : (code : ℕ) (c : Connection) → Closed c.server (send_error code c)
unfolding send_error answer_error
send_error-Closed code c =
    answered-Closed c (send_error_response code c.writer) (send_error_response-ends code c.writer)

-- The limiter is not among what `Closed` speaks of.
Closed-limiter :
    (s : ReverseProxy) (r : Option RateLimiter) (x : Result (Unit {0}) × Connection)
    → Closed (record s { rate_limiter = r }) x
    → Closed s x
Closed-limiter s r x k = record {
  same = record {
    permits = k.same.permits;
    tasks = k.same.tasks;
    active = k.same.active;
    keepalive = k.same.keepalive;
  };
  ends = k.ends;
  shut = k.shut;
}

branch-Closed :
    (g : ReverseProxy) (b : Bool) (x y : Result (Unit {0}) × Connection)
    → Closed g x
    → Closed g y
    → Closed g (if b then x else y)
branch-Closed g true x y p q = p
branch-Closed g false x y p q = q

module _ (ms : ℕ) (turn : ℕ → Turn) (serve : ℕ → Coro ClientHandler Bool) where
  clean_up-Same :
      (task left : ℕ) (c : Connection) (d : Connection)
      → c.server.permits ≡ suc left
      → Same (admit task left c).server d.server
      → Same c.server (clean_up task d).server
  unfolding clean_up admit inc_active dec_active
  clean_up-Same task left c d e s = record {
    permits = one_more (s.permits) e;
    tasks = ap (discard task) s.tasks ∙ discard_added task c.server.client_tasks;
    active = one_less d.server.metrics c.server.metrics s.active;
    keepalive = s.keepalive;
  }

  finish-Closed :
      (task left : ℕ) (c : Connection) (x : Result (Unit {0}) × Connection)
      → c.server.permits ≡ suc left
      → Kept (admit task left c).server x
      → Closed c.server (finish task x)
  unfolding finish clean_up Stream.close
  finish-Closed task left c (ok a, d) e k = record {
    same = clean_up-Same task left c d e k.same;
    ends = λ f. cc;
    shut = λ f. refl;
  }
  finish-Closed task left c (err x, d) e k = record {
    same = clean_up-Same task left c d e k.same;
    ends = λ f. cc;
    shut = λ f. refl;
  }
  finish-Closed task left c (spinning, d) e k = absurd (k.ends refl)

  admitted :
      (task left : ℕ) (c : Connection)
      → (admit task left c).server.keepalive.max_requests < c.server.keepalive.max_requests + 1 + 0
  unfolding admit
  admitted task left c = omega arith

  accept-Closed :
      (task : ℕ) (c : Connection)
      → Serves serve
      → 0 < c.server.permits
      → Closed c.server (accept ms turn serve task c)
  unfolding accept
  accept-Closed task c serves free = go c.server.permits refl
    where
      go :
          (n : ℕ)
          → c.server.permits ≡ n
          → Closed c.server (elim n [
            | zero ↦ (spinning, c)
            | suc left ↦ finish task (
                recovered (
                  request_loop ms turn serve
                    (c.server.keepalive.max_requests + 1)
                    0
                    true
                    (admit task left c)))
          ])
      go zero e = absurd (omega arith)
      go (suc left) e =
          let g = (admit task left c).server in
          finish-Closed task left c _ e (
            recovered-Kept ms turn serve serves g _ (
              request_loop-Kept ms turn serve serves g (c.server.keepalive.max_requests + 1) 0 true
                (admit task left c) (Same-refl g) (omega arith) (admitted task left c)))

  limited-Closed :
      (task : ℕ) (b : Bool) (c : Connection)
      → Serves serve
      → 0 < c.server.permits
      → Closed c.server (limited ms turn serve task b c)
  unfolding limited
  limited-Closed task true c serves free = accept-Closed task c serves free
  limited-Closed task false c serves free = send_error-Closed 429 c

-- With a permit of the semaphore to be had, and handlers that end and leave the count of active
-- connections alone, handle_connection ends, on every branch and with every exception: the active
-- connections, the permits and the tasks are as before it, and if it returns, the client's writer
-- is closed.
pub handle_connection-Closed :
    (ms : ℕ) (turn : ℕ → Turn) (serve : ℕ → Coro ClientHandler Bool) (task : ℕ) (peer : Option Text)
    (t : Readings) (c : Connection)
    → Serves serve
    → 0 < c.server.permits
    → Closed c.server (handle_connection ms turn serve task peer t c)
unfolding handle_connection
handle_connection-Closed ms turn serve task peer t c serves free =
    branch-Closed c.server c.server.is_shutting_down _ _ (send_error-Closed 503 c)
      (go c.server.rate_limiter)
  where
    go :
        (o : Option RateLimiter)
        → Closed c.server (elim o [
          | none ↦ accept ms turn serve task c
          | some r ↦
              limited ms turn serve task
                (allow r peer t).0
                (record c { server = record c.server { rate_limiter = some (allow r peer t).1 } })
        ])
    go none = accept-Closed ms turn serve task c serves free
    go (some r) = Closed-limiter c.server (some (allow r peer t).1) _ (
        limited-Closed ms turn serve task (allow r peer t).0
          (record c { server = record c.server { rate_limiter = some (allow r peer t).1 } }) serves
          free)
