-- ===== src/Metrics/Page.antt =====
-- `snapshot` and the text of /metrics of proxy/metrics.py.
use nginx_remake_v.Prelude.{ℕ, List, [], ◌∷◌, ◌++◌, Text, codes, number_keys, text_keys}
use nginx_remake_v.Prelude.Dict.{Dict}
use nginx_remake_v.Python.{show}
use nginx_remake_v.Metrics.{ProxyMetrics}

-- The counters, the dictionaries copied.
unfoldable pub snapshot : ProxyMetrics → ProxyMetrics
snapshot m = m

-- `f"{name} {n}"`
unfoldable pub counter_line : Text → ℕ → Text
counter_line name n = name ++ (codes " " ++ show n)

-- `f'{name}{{{label}="{key}"}} {n}'`
unfoldable pub labelled_line : Text → Text → Text → ℕ → Text
unfolding counter_line
labelled_line name label key n =
    counter_line (name ++ (codes "{" ++ (label ++ (codes "=\"" ++ (key ++ codes "\"}"))))) n

unfoldable pub status_lines : Dict ℕ ℕ → List Text
status_lines [] = []
status_lines ((code, n) ∷ d) =
    labelled_line (codes "status_count") (codes "code") (show code) n ∷ status_lines d

unfoldable pub latency_lines : Dict Text ℕ → List Text
latency_lines [] = []
latency_lines ((bucket, n) ∷ d) =
    labelled_line (codes "latency_bucket") (codes "bucket") bucket n ∷ latency_lines d

unfoldable pub metrics_lines : ProxyMetrics → List Text
metrics_lines m =
    counter_line (codes "total_requests") m.total_requests
    ∷ counter_line (codes "active_connections") m.active_connections
    ∷ counter_line (codes "total_bytes_in") m.total_bytes_in
    ∷ counter_line (codes "total_bytes_out") m.total_bytes_out
    ∷ (status_lines m.status_counts ++ latency_lines m.latency_buckets)

-- `"\n".join(lines) + "\n"`
unfoldable pub with_newlines : List Text → Text
with_newlines [] = []
with_newlines (l ∷ ls) = l ++ (codes "\n" ++ with_newlines ls)

unfoldable pub metrics_text : ProxyMetrics → Text
metrics_text m = with_newlines (metrics_lines (snapshot m))
