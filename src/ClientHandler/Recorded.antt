-- ===== src/ClientHandler/Recorded.antt =====
-- Every request that was handled is counted once, by what it came to.
use nginx_remake_v.Prelude.{
  ℕ, ◌+◌, ◌-◌, ◌≡◌, Bool, true, Option, none, some, if◌then◌else◌, codes, ◌==◌, number_keys,
  text_keys,
}
use nginx_remake_v.Exec.{Result, ok, err, spinning}
use nginx_remake_v.Headers.{HttpRequest}
use nginx_remake_v.UpstreamPool.{UpstreamsPool, record_success, record_failure}
use nginx_remake_v.Metrics.{count_of}
use nginx_remake_v.Metrics.Counts.{one_if, lasts, lasts_between, lasts_from}
use nginx_remake_v.ClientHandler.{Settings, Surroundings, ClientHandler, should_keep_alive}
use nginx_remake_v.ClientHandler.Handle.{attempts}
use nginx_remake_v.ClientHandler.Permits.{Ledger, ledger}

-- From a ledger and a pool, one request was counted, by the bytes, the status and the success that
-- the handler has and by the time since its start, in the bucket of that time.
pub record Recorded (ms now : ℕ) (l : Ledger) (pool : UpstreamsPool) (h : ClientHandler)
    : Type 0 where
  pub once : h.metrics_recorded ≡ true
  pub requests : h.metrics.total_requests ≡ l.0.total_requests + 1
  pub active : h.metrics.active_connections ≡ l.0.active_connections
  pub bytes_in : h.metrics.total_bytes_in ≡ l.0.total_bytes_in + h.bytes_in
  pub bytes_out : h.metrics.total_bytes_out ≡ l.0.total_bytes_out + h.bytes_out
  pub statuses :
      (code : ℕ)
      → count_of code h.metrics.status_counts
        ≡ one_if (h.status_code == code) + count_of code l.0.status_counts
  pub below_10 :
      count_of (codes "lt_10ms") h.metrics.latency_buckets
      ≡ lasts_between ms 0 10 (lasts (now - l.2)) + count_of (codes "lt_10ms") l.0.latency_buckets
  pub below_50 :
      count_of (codes "10_50ms") h.metrics.latency_buckets
      ≡ lasts_between ms 10 50 (lasts (now - l.2)) + count_of (codes "10_50ms") l.0.latency_buckets
  pub below_200 :
      count_of (codes "50_200ms") h.metrics.latency_buckets
      ≡ lasts_between ms 50 200 (lasts (now - l.2))
        + count_of (codes "50_200ms") l.0.latency_buckets
  pub from_200 :
      count_of (codes "gt_200ms") h.metrics.latency_buckets
      ≡ lasts_from ms 200 (lasts (now - l.2)) + count_of (codes "gt_200ms") l.0.latency_buckets
  pub told : h.pool ≡ (
      if h.successful_request
      then record_success pool h.upstream
      else record_failure pool h.upstream now)

-- What was recorded where the attempts are over, by how `handle` ends: the request, if it returns,
-- and otherwise nothing.
abbrev pub Ended : ℕ → ℕ → Ledger → UpstreamsPool → Result Bool × ClientHandler → Type 0
Ended ms now l pool (ok k, h) = Recorded ms now l pool h
Ended ms now l pool (err e, h) = ledger h ≡ l
Ended ms now l pool (spinning, h) = ledger h ≡ l

-- What `handle` has recorded, by what was read; `g` is the handler after reading, and the pool is as
-- its attempts leave it.
abbrev pub Records :
    Settings
    → (ℕ → Surroundings)
    → ℕ
    → Ledger
    → Result (Option HttpRequest) × ClientHandler
    → Result Bool × ClientHandler
    → Type 0
Records s env now l (ok (some req), g) x =
    let tried =
      (attempts s env req (s.retry_config.max_retries + 1) 0 (should_keep_alive s req) g).1 in
    Ended s.ms now l tried.pool x
Records s env now l (ok none, g) x = ledger x.1 ≡ l
Records s env now l (err e, g) x = ledger x.1 ≡ l
Records s env now l (spinning, g) x = ledger x.1 ≡ l
