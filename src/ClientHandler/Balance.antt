-- ===== src/ClientHandler/Balance.antt =====
-- A handled request takes no connection with it: the permits of every pool are as before.
use nginx_remake_v.Prelude.{
  ℕ, zero, suc, ◌+◌, ◌≡◌, refl, ap, ◌∙◌, inl, inr, Bool, true, false, Option, none, some, arith,
  Bool-cases, number_keys, text_keys,
}
use nginx_remake_v.Prelude.Dict.{Dict, lookup}
use nginx_remake_v.Exec.{Exception, Result, ok, err, spinning, Coro}
use nginx_remake_v.Headers.{HttpRequest}
use nginx_remake_v.ConnectionPool.{PooledConnection, PerUpstreamPool}
use nginx_remake_v.UpstreamPool.{Upstream, UpstreamsPool, upstream_keys}
use nginx_remake_v.ClientHandler.{
  Settings, Surroundings, ClientHandler, should_keep_alive, fail_request, record_metrics,
}
use nginx_remake_v.ClientHandler.Attempt.{
  Outcome, finished, gave_up, again, read_request_headers, leave, with_connection, try_upstream,
}
use nginx_remake_v.ClientHandler.Handle.{
  error_status, finally, failed, caught, conclude, next_round, attempts, ended, on_request, handle,
}
use nginx_remake_v.UpstreamPool.Permits.{
  permits_of, permits_in, record_success_pools, record_failure_pools, Enters,
  enter_connection-Enters, exit-enter_permits,
}
use nginx_remake_v.ClientHandler.Recording.{record_metrics_active}
use nginx_remake_v.ClientHandler.Permits.{
  fail_request_pool, ledger-fail_request, exchange-Holds, Ledger, ledger,
}

-- Two handlers between which no permit was taken or given back.
abbrev pub Balanced : ClientHandler → ClientHandler → Type 0
Balanced h h' =
    ((v : Upstream) → permits_of h'.pool v ≡ permits_of h.pool v)
    × (h'.metrics.active_connections ≡ h.metrics.active_connections)

-- The same pools of connections, and as many active connections.
of_pools :
    (h h' : ClientHandler)
    → h'.pool.pools ≡ h.pool.pools
    → h'.metrics.active_connections ≡ h.metrics.active_connections
    → Balanced h h'
of_pools h h' e a =
    ((λ v. ap (λ (d : Dict Upstream PerUpstreamPool). permits_in (lookup v d)) e), a)

Balanced-trans : (h h' h'' : ClientHandler) → Balanced h h' → Balanced h' h'' → Balanced h h''
Balanced-trans h h' h'' f g = ((λ v. g.0 v ∙ f.0 v), g.1 ∙ f.1)

with_connection-Balanced :
    (s : Settings) (req : HttpRequest) (keep : Bool) (env : Surroundings) (n : ℕ)
    (c : Result PooledConnection) (h : ClientHandler) (pool : UpstreamsPool)
    → Enters h.pool h.upstream c pool
    → Balanced h (with_connection s req keep env n c (record h { pool = pool })).1
unfolding with_connection leave
with_connection-Balanced s req keep env n (ok c) h pool enters =
    let (pools, kept) =
      exchange-Holds s pool.pools (ledger h) req keep env.chosen_at n _ (refl, refl) in
    (
      (λ v. exit-enter_permits h.pool pool _ h.upstream v c _ env.released_at enters pools),
      ap (λ (l : Ledger). l.0.active_connections) kept,
    )
with_connection-Balanced s req keep env n (err e) h pool enters = (enters, refl)
with_connection-Balanced s req keep env n spinning h pool enters = absurd enters

try_upstream-Balanced :
    (s : Settings) (req : HttpRequest) (keep : Bool) (env : Surroundings) (n : ℕ)
    (h : ClientHandler)
    → Balanced h (try_upstream s req keep env n h).1
unfolding try_upstream
try_upstream-Balanced s req keep env n h =
    with_connection-Balanced s req keep env n _ h _
      (enter_connection-Enters h.pool h.upstream env.acquired_at env.opened)

-- The same pool and the same ledger.
abbrev pub AreSame : ClientHandler → ClientHandler → Type 0
AreSame h h' = (h'.pool ≡ h.pool) × (ledger h' ≡ ledger h)

finally-AreSame : (k : Bool) (h : ClientHandler) → AreSame h (finally k h)
unfolding finally
finally-AreSame true h = (refl, refl)
finally-AreSame false h = (refl, refl)

failed-AreSame : (x : Result (Unit {0}) × ClientHandler) → AreSame x.1 (failed x).1
unfolding failed
failed-AreSame (ok a, h) = finally-AreSame false h
failed-AreSame (err e, h) = finally-AreSame false h
failed-AreSame (spinning, h) = (refl, refl)

caught-AreSame :
    (k : Bool) (e : Exception) (o : Option ℕ) (h : ClientHandler) → AreSame h (caught k e o h).1
unfolding caught
caught-AreSame k e none h = finally-AreSame k h
caught-AreSame k e (some code) h =
    let (pool, metrics) = failed-AreSame (fail_request code h) in
    (pool ∙ fail_request_pool code h, metrics ∙ ledger-fail_request code h)

pub conclude-AreSame :
    (k : Bool) (x : Result Outcome × ClientHandler) → AreSame x.1 (conclude k x).1
unfolding conclude
conclude-AreSame k (ok finished, h) = finally-AreSame k h
conclude-AreSame k (ok gave_up, h) = finally-AreSame false h
conclude-AreSame k (ok again, h) = finally-AreSame k h
conclude-AreSame k (err e, h) = caught-AreSame k e (error_status e) h
conclude-AreSame k (spinning, h) = (refl, refl)

next_round-Balanced :
    (g : ClientHandler) (rest : Bool → Coro ClientHandler Bool)
    (x : Result (Outcome × Bool) × ClientHandler)
    → Balanced g x.1
    → ((k : Bool) (h : ClientHandler) → Balanced h (rest k h).1)
    → Balanced g (next_round rest x).1
unfolding next_round
next_round-Balanced g rest (ok (finished, true), h) b later =
    elim (Bool-cases h.successful_request) [
      | inl e ↦ rw (e, next_round) b
      | inr e ↦ rw (e, next_round) (Balanced-trans g h (rest true h).1 b (later true h))
    ]
next_round-Balanced g rest (ok (finished, false), h) b later = b
next_round-Balanced g rest (ok (gave_up, k), h) b later = b
next_round-Balanced g rest (ok (again, k), h) b later =
    Balanced-trans g h (rest k h).1 b (later k h)
next_round-Balanced g rest (err e, h) b later = b
next_round-Balanced g rest (spinning, h) b later = b

attempts-Balanced :
    (s : Settings) (env : ℕ → Surroundings) (req : HttpRequest) (k n : ℕ) (keep : Bool)
    (h : ClientHandler)
    → Balanced h (attempts s env req k n keep h).1
unfolding attempts
attempts-Balanced s env req zero n keep h = ((λ v. refl), refl)
attempts-Balanced s env req (suc k) n keep h =
    let x = try_upstream s req keep (env n) n h in
    next_round-Balanced h (attempts s env req k (n + 1)) (conclude keep x)
      (Balanced-trans h x.1 (conclude keep x).1 (try_upstream-Balanced s req keep (env n) n h) (
        of_pools x.1 (conclude keep x).1
          (ap (λ (p : UpstreamsPool). p.pools) (conclude-AreSame keep x).0)
          (ap (λ (l : Ledger). l.0.active_connections) (conclude-AreSame keep x).1)))
      (attempts-Balanced s env req k (n + 1))

record_metrics_pools :
    (ms now : ℕ) (h : ClientHandler) → (record_metrics ms now h).pool.pools ≡ h.pool.pools
unfolding record_metrics
record_metrics_pools ms now h =
    ground
      (arith, record_success_pools h.pool h.upstream, record_failure_pools h.pool h.upstream now)

ended-Balanced :
    (s : Settings) (env : ℕ → Surroundings) (now : ℕ) (g : ClientHandler)
    (x : Result Bool × ClientHandler)
    → Balanced g x.1
    → Balanced g (ended s env now x).1
unfolding ended
ended-Balanced s env now g (ok k, h) b = Balanced-trans g h (record_metrics s.ms now h) b (
    of_pools h (record_metrics s.ms now h) (record_metrics_pools s.ms now h)
      (record_metrics_active s.ms now h))
ended-Balanced s env now g (err e, h) b = b
ended-Balanced s env now g (spinning, h) b = b

on_request-Balanced :
    (s : Settings) (env : ℕ → Surroundings) (now : ℕ) (x : Result (Option HttpRequest))
    (h : ClientHandler)
    → Balanced h (on_request s env now (x, h)).1
unfolding on_request
on_request-Balanced s env now (ok none) h = ((λ v. refl), refl)
on_request-Balanced s env now (ok (some req)) h =
    ended-Balanced s env now h _
      (attempts-Balanced s env req (s.retry_config.max_retries + 1) 0 (should_keep_alive s req) h)
on_request-Balanced s env now (err e) h = ((λ v. refl), refl)
on_request-Balanced s env now spinning h = ((λ v. refl), refl)

-- However handle ends, by a return, by an exception that it does not catch, or not within the
-- fuel, every pool of connections has as many permits free as before, and as many connections are
-- counted as active.
pub handle-Balanced :
    (s : Settings) (env : ℕ → Surroundings) (now : ℕ) (h : ClientHandler)
    → Balanced h (handle s env now h).1
unfolding handle read_request_headers
handle-Balanced s env now h =
    on_request-Balanced s env now (read_request_headers s h).0 (read_request_headers s h).1
