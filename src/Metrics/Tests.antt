-- ===== src/Metrics/Tests.antt =====
-- The metrics on concrete calls.
use nginx_remake_v.Prelude.{ℕ, ◌≡◌, refl, List, [], ◌∷◌, Text, codes, number_keys, text_keys}
use nginx_remake_v.Python.{show}
use nginx_remake_v.Metrics.Page.{
  metrics_text, with_newlines, metrics_lines, status_lines, latency_lines, labelled_line,
  counter_line, snapshot,
}
use nginx_remake_v.Metrics.{
  ProxyMetrics, proxy_metrics, inc_requests, inc_active, dec_active, add_bytes, count_of, tally,
  record_status, bucket_of, record_latency,
}
use nginx_remake_v.Metrics.Counts.{
  Event, requests, opens, closes, moves, responds, lasts, run, step, total, is_request, bytes_in,
  bytes_out, has_code, has_bucket, lasts_between, lasts_from, run_counts,
}

abbrev calls : List Event
calls =
    opens
    ∷ requests
    ∷ responds 200
    ∷ lasts 49
    ∷ moves 5 7
    ∷ responds 502
    ∷ responds 200
    ∷ lasts 50
    ∷ closes
    ∷ []

two_hundreds : count_of 200 (run 1 proxy_metrics calls).status_counts ≡ 2
unfolding run step proxy_metrics inc_requests inc_active dec_active add_bytes tally record_status
    record_latency
two_hundreds = refl

middling : count_of (codes "10_50ms") (run 1 proxy_metrics calls).latency_buckets ≡ 1
unfolding run step proxy_metrics inc_requests inc_active dec_active add_bytes tally record_status
    record_latency bucket_of
middling = refl

run_counts_example :
    let m = run 1 proxy_metrics calls in
    (m.total_requests ≡ total is_request calls)
    × (m.total_bytes_in ≡ total bytes_in calls)
    × (m.total_bytes_out ≡ total bytes_out calls)
    × ((code : ℕ) → count_of code m.status_counts ≡ total (has_code code) calls)
    × ((b : Text) → count_of b m.latency_buckets ≡ total (has_bucket 1 b) calls)
    × (count_of (codes "lt_10ms") m.latency_buckets ≡ total (lasts_between 1 0 10) calls)
    × (count_of (codes "10_50ms") m.latency_buckets ≡ total (lasts_between 1 10 50) calls)
    × (count_of (codes "50_200ms") m.latency_buckets ≡ total (lasts_between 1 50 200) calls)
    × (count_of (codes "gt_200ms") m.latency_buckets ≡ total (lasts_from 1 200) calls)
run_counts_example = run_counts 1 calls

abbrev busy : ProxyMetrics
busy = record {
  total_requests = 4;
  active_connections = 2;
  total_bytes_in = 0;
  total_bytes_out = 0;
  status_counts = [];
  latency_buckets = [];
}

page :
    metrics_text (record {
      total_requests = 12;
      active_connections = 1;
      total_bytes_in = 0;
      total_bytes_out = 7;
      status_counts = (200, 3) ∷ [];
      latency_buckets = (codes "lt_10ms", 2) ∷ [];
    })
    ≡ codes
        "total_requests 12\nactive_connections 1\ntotal_bytes_in 0\ntotal_bytes_out 7\nstatus_count{code=\"200\"} 3\nlatency_bucket{bucket=\"lt_10ms\"} 2\n"
unfolding metrics_text with_newlines metrics_lines status_lines latency_lines labelled_line
    counter_line snapshot show
page = refl
