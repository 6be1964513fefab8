-- ===== src/ClientHandler/Recording.antt =====
-- What recording a request leaves alone.
use nginx_remake_v.Prelude.{Bool-cases, inl, inr, arith, ℕ, ◌≡◌, number_keys, text_keys}
use nginx_remake_v.ClientHandler.{ClientHandler, record_metrics}
use nginx_remake_v.Metrics.{inc_requests, add_bytes, record_status, record_latency}

-- It leaves the count of active connections alone.
pub record_metrics_active :
    (ms now : ℕ) (h : ClientHandler)
    → (record_metrics ms now h).metrics.active_connections ≡ h.metrics.active_connections
unfolding record_metrics inc_requests add_bytes record_status record_latency
record_metrics_active ms now h = elim (Bool-cases h.metrics_recorded) [
  | inl y ↦ ground (arith, y)
  | inr n ↦ ground (arith, n)
]
