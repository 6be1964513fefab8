-- ===== src/Metrics.antt =====
-- `ProxyMetrics` of proxy/metrics.py: the counters and the text of /metrics.
--
-- Every method runs whole under the lock. A latency counts in ticks, `ms` of them in a millisecond.
pub mod Counts
pub mod Page
mod Tests
use nginx_remake_v.Prelude.{
  ℕ, zero, suc, ◌+◌, ◌-◌, ◌*◌, ◌/◌, ◌%◌, ◌≤◌, ◌<◌, min, max, ◌≡◌, refl, sym, ap, ◌∙◌, subst, ◌≢◌,
  ◌↔◌, ◌⊎◌, inl, inr, Bool, true, false, not, ◌&&◌, ◌||◌, Option, none, some, List, [], ◌∷◌, ◌++◌,
  map, append-nil, append_assoc, arith, ap₂, ltb, leb, eqb, if◌then◌else◌, ltb→lt, leb→le, eqb_iff,
  Bool-cases, Option-cases, length, get_elem?, take, drop, length-append, take-append-drop,
  length-take, length-drop, Text, Bytes, codes, text_eq, text_eq_iff, Key, ◌==◌, number_keys,
  text_keys,
}
use nginx_remake_v.Prelude.Dict.{
  Dict, lookup, insert, lookup-insert, lookup-insert_self, lookup-insert_ne,
}

pub record ProxyMetrics : Type 0 where
  pub total_requests : ℕ
  pub active_connections : ℕ
  pub total_bytes_in : ℕ
  pub total_bytes_out : ℕ
  pub status_counts : Dict ℕ ℕ
  pub latency_buckets : Dict Text ℕ

-- `ProxyMetrics()`
unfoldable pub proxy_metrics : ProxyMetrics
proxy_metrics = record {
  total_requests = 0;
  active_connections = 0;
  total_bytes_in = 0;
  total_bytes_out = 0;
  status_counts = [];
  latency_buckets = [];
}

unfoldable pub inc_requests : ProxyMetrics → ProxyMetrics
inc_requests m = record m { total_requests = m.total_requests + 1 }

unfoldable pub inc_active : ProxyMetrics → ProxyMetrics
inc_active m = record m { active_connections = m.active_connections + 1 }

unfoldable pub dec_active : ProxyMetrics → ProxyMetrics
dec_active m =
    if ltb 0 m.active_connections
    then record m { active_connections = m.active_connections - 1 }
    else m

unfoldable pub add_bytes : ProxyMetrics → ℕ → ℕ → ProxyMetrics
add_bytes m bytes_in bytes_out = record m {
  total_bytes_in = m.total_bytes_in + bytes_in;
  total_bytes_out = m.total_bytes_out + bytes_out;
}

-- `d[k]` of a `defaultdict(int)`
abbrev pub count_of : {K : Type 0} ⦃keys : Key K⦄ → K → Dict K ℕ → ℕ
count_of k d = elim (lookup k d) [ none ↦ 0 | some n ↦ n ]

-- `d[k] += 1`
unfoldable pub tally : {K : Type 0} ⦃keys : Key K⦄ → K → Dict K ℕ → Dict K ℕ
tally k d = insert k (count_of k d + 1) d

unfoldable pub record_status : ProxyMetrics → ℕ → ProxyMetrics
record_status m code = record m { status_counts = tally code m.status_counts }

-- The bucket of a latency.
unfoldable pub bucket_of : ℕ → ℕ → Text
bucket_of ms d =
    if ltb d (10 * ms)
    then codes "lt_10ms"
    else if ltb d (50 * ms)
    then codes "10_50ms"
    else if ltb d (200 * ms)
    then codes "50_200ms"
    else codes "gt_200ms"

unfoldable pub record_latency : ProxyMetrics → ℕ → ℕ → ProxyMetrics
record_latency m ms d = record m { latency_buckets = tally (bucket_of ms d) m.latency_buckets }
