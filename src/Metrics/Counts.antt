-- ===== src/Metrics/Counts.antt =====
-- What the counters say after any calls.
use nginx_remake_v.Prelude.{
  ℕ, ◌+◌, ◌*◌, ◌-◌, ◌<◌, ◌≡◌, refl, ◌∙◌, sym, subst, Bool, ◌&&◌, List, [], ◌∷◌, arith,
  if◌then◌else◌, Text, codes, Key, ◌==◌, ltb, leb, number_keys, text_keys,
}
use nginx_remake_v.Prelude.Dict.{Dict, lookup-insert}
use nginx_remake_v.Metrics.{
  ProxyMetrics, proxy_metrics, inc_requests, inc_active, dec_active, add_bytes, count_of, tally,
  record_status, bucket_of, record_latency,
}

-- A call of a method.
pub data Event : Type 0 where
  requests : Event
  opens : Event
  closes : Event
  moves : ℕ → ℕ → Event
  responds : ℕ → Event
  lasts : ℕ → Event

unfoldable pub step : ℕ → ProxyMetrics → Event → ProxyMetrics
step ms m requests = inc_requests m
step ms m opens = inc_active m
step ms m closes = dec_active m
step ms m (moves i o) = add_bytes m i o
step ms m (responds code) = record_status m code
step ms m (lasts d) = record_latency m ms d

unfoldable pub run : ℕ → ProxyMetrics → List Event → ProxyMetrics
unfolding step
run ms m [] = m
run ms m (e ∷ es) = run ms (step ms m e) es

abbrev pub total {ℓ} : {A : Type ℓ} → (A → ℕ) → List A → ℕ
total f [] = 0
total f (x ∷ xs) = f x + total f xs

abbrev pub one_if : Bool → ℕ
one_if b = if b then 1 else 0

abbrev pub is_request : Event → ℕ
is_request requests = 1
is_request opens = 0
is_request closes = 0
is_request (moves i o) = 0
is_request (responds c) = 0
is_request (lasts d) = 0

abbrev pub bytes_in : Event → ℕ
bytes_in requests = 0
bytes_in opens = 0
bytes_in closes = 0
bytes_in (moves i o) = i
bytes_in (responds c) = 0
bytes_in (lasts d) = 0

abbrev pub bytes_out : Event → ℕ
bytes_out requests = 0
bytes_out opens = 0
bytes_out closes = 0
bytes_out (moves i o) = o
bytes_out (responds c) = 0
bytes_out (lasts d) = 0

-- The event is a response with this code.
abbrev pub has_code : ℕ → Event → ℕ
has_code code requests = 0
has_code code opens = 0
has_code code closes = 0
has_code code (moves i o) = 0
has_code code (responds c) = one_if (c == code)
has_code code (lasts d) = 0

-- The event is a latency that falls into this bucket.
abbrev pub has_bucket : ℕ → Text → Event → ℕ
has_bucket ms b requests = 0
has_bucket ms b opens = 0
has_bucket ms b closes = 0
has_bucket ms b (moves i o) = 0
has_bucket ms b (responds c) = 0
has_bucket ms b (lasts d) = one_if (bucket_of ms d == b)

-- The event is a latency of at least `lo` and less than `hi` milliseconds.
abbrev pub lasts_between : ℕ → ℕ → ℕ → Event → ℕ
lasts_between ms lo hi requests = 0
lasts_between ms lo hi opens = 0
lasts_between ms lo hi closes = 0
lasts_between ms lo hi (moves i o) = 0
lasts_between ms lo hi (responds c) = 0
lasts_between ms lo hi (lasts d) = one_if (leb (lo * ms) d && ltb d (hi * ms))

-- The event is a latency of at least `lo` milliseconds.
abbrev pub lasts_from : ℕ → ℕ → Event → ℕ
lasts_from ms lo requests = 0
lasts_from ms lo opens = 0
lasts_from ms lo closes = 0
lasts_from ms lo (moves i o) = 0
lasts_from ms lo (responds c) = 0
lasts_from ms lo (lasts d) = one_if (leb (lo * ms) d)

-- `d[k] += 1` counts `k` once more and nothing else.
pub count-tally :
    {K : Type 0} ⦃keys : Key K⦄ (k j : K) (d : Dict K ℕ)
    → count_of j (tally k d) ≡ one_if (k == j) + count_of j d
unfolding tally
count-tally ⦃keys⦄ k j d =
    ground (arith, lookup-insert k j (count_of k d + 1) d, keys.equal_iff k j)

step_status :
    (ms : ℕ) (m : ProxyMetrics) (e : Event) (code : ℕ)
    → count_of code (step ms m e).status_counts ≡ has_code code e + count_of code m.status_counts
unfolding step inc_requests inc_active dec_active add_bytes record_status record_latency
step_status ms m requests code = omega arith
step_status ms m opens code = omega arith
step_status ms m closes code = ground arith
step_status ms m (moves i o) code = omega arith
step_status ms m (responds c) code = count-tally c code m.status_counts
step_status ms m (lasts d) code = omega arith

step_latency :
    (ms : ℕ) (m : ProxyMetrics) (e : Event) (b : Text)
    → count_of b (step ms m e).latency_buckets ≡ has_bucket ms b e + count_of b m.latency_buckets
unfolding step inc_requests inc_active dec_active add_bytes record_status record_latency
step_latency ms m requests b = omega arith
step_latency ms m opens b = omega arith
step_latency ms m closes b = ground arith
step_latency ms m (moves i o) b = omega arith
step_latency ms m (responds c) b = omega arith
step_latency ms m (lasts d) b = count-tally (bucket_of ms d) b m.latency_buckets

-- The four buckets by the latencies that fall into them.
pub bucket_lt_10 :
    (ms d : ℕ) → one_if (bucket_of ms d == codes "lt_10ms") ≡ lasts_between ms 0 10 (lasts d)
unfolding bucket_of
bucket_lt_10 ms d = ground arith

pub bucket_10_50 :
    (ms d : ℕ) → one_if (bucket_of ms d == codes "10_50ms") ≡ lasts_between ms 10 50 (lasts d)
unfolding bucket_of
bucket_10_50 ms d = ground arith

pub bucket_50_200 :
    (ms d : ℕ) → one_if (bucket_of ms d == codes "50_200ms") ≡ lasts_between ms 50 200 (lasts d)
unfolding bucket_of
bucket_50_200 ms d = ground arith

pub bucket_gt_200 :
    (ms d : ℕ) → one_if (bucket_of ms d == codes "gt_200ms") ≡ lasts_from ms 200 (lasts d)
unfolding bucket_of
bucket_gt_200 ms d = ground arith

-- Two ways to read off a latency that agree count alike.
total_agree :
    (b : Text) (f : Event → ℕ) (ms : ℕ)
    → ((e : Event) → has_bucket ms b e ≡ f e)
    → (es : List Event) → total (has_bucket ms b) es ≡ total f es
total_agree b f ms same [] = refl
total_agree b f ms same (e ∷ es) = omega (arith, same e, total_agree b f ms same es)

-- A counter to which every step adds, adds up.
sums :
    (f : ProxyMetrics → ℕ) (g : Event → ℕ) (ms : ℕ)
    → ((m : ProxyMetrics) (e : Event) → f (step ms m e) ≡ g e + f m)
    → (m : ProxyMetrics) (es : List Event) → f (run ms m es) ≡ total g es + f m
unfolding run
sums f g ms h m [] = omega arith
sums f g ms h m (e ∷ es) = omega (arith, sums f g ms h (step ms m e) es, h m e)

-- After any calls on new metrics, the requests, the bytes both ways and the responses of every
-- code are exactly those of the calls, and the buckets lt_10ms, 10_50ms, 50_200ms and gt_200ms
-- count exactly the latencies below 10 ms, from 10 to below 50 ms, from 50 to below 200 ms and
-- from 200 ms on.
pub run_counts :
    (ms : ℕ) (es : List Event)
    → let m = run ms proxy_metrics es in
      (m.total_requests ≡ total is_request es)
      × (m.total_bytes_in ≡ total bytes_in es)
      × (m.total_bytes_out ≡ total bytes_out es)
      × ((code : ℕ) → count_of code m.status_counts ≡ total (has_code code) es)
      × ((b : Text) → count_of b m.latency_buckets ≡ total (has_bucket ms b) es)
      × (count_of (codes "lt_10ms") m.latency_buckets ≡ total (lasts_between ms 0 10) es)
      × (count_of (codes "10_50ms") m.latency_buckets ≡ total (lasts_between ms 10 50) es)
      × (count_of (codes "50_200ms") m.latency_buckets ≡ total (lasts_between ms 50 200) es)
      × (count_of (codes "gt_200ms") m.latency_buckets ≡ total (lasts_from ms 200) es)
unfolding proxy_metrics
run_counts ms es = (
  omega (arith, sums (λ m. m.total_requests) is_request ms step_requests proxy_metrics es),
  omega (arith, sums (λ m. m.total_bytes_in) bytes_in ms step_in proxy_metrics es),
  omega (arith, sums (λ m. m.total_bytes_out) bytes_out ms step_out proxy_metrics es),
  (λ code. omega (
    arith,
    sums (λ m. count_of code m.status_counts) (has_code code) ms (λ m e. step_status ms m e code)
        proxy_metrics es,
  )),
  in_bucket,
  in_bucket (codes "lt_10ms") ∙ total_agree (codes "lt_10ms") (lasts_between ms 0 10) ms lt_10 es,
  in_bucket (codes "10_50ms") ∙ total_agree (codes "10_50ms") (lasts_between ms 10 50) ms to_50 es,
  in_bucket (codes "50_200ms")
      ∙ total_agree (codes "50_200ms") (lasts_between ms 50 200) ms to_200 es,
  in_bucket (codes "gt_200ms") ∙ total_agree (codes "gt_200ms") (lasts_from ms 200) ms gt_200 es,
)
  where
    in_bucket :
        (b : Text)
        → count_of b (run ms proxy_metrics es).latency_buckets ≡ total (has_bucket ms b) es
    in_bucket b =
        unfold proxy_metrics in
        omega (
          arith,
          sums (λ m. count_of b m.latency_buckets) (has_bucket ms b) ms
              (λ m e. step_latency ms m e b) proxy_metrics es,
        )

    lt_10 : (e : Event) → has_bucket ms (codes "lt_10ms") e ≡ lasts_between ms 0 10 e
    lt_10 requests = refl
    lt_10 opens = refl
    lt_10 closes = refl
    lt_10 (moves i o) = refl
    lt_10 (responds c) = refl
    lt_10 (lasts d) = bucket_lt_10 ms d

    to_50 : (e : Event) → has_bucket ms (codes "10_50ms") e ≡ lasts_between ms 10 50 e
    to_50 requests = refl
    to_50 opens = refl
    to_50 closes = refl
    to_50 (moves i o) = refl
    to_50 (responds c) = refl
    to_50 (lasts d) = bucket_10_50 ms d

    to_200 : (e : Event) → has_bucket ms (codes "50_200ms") e ≡ lasts_between ms 50 200 e
    to_200 requests = refl
    to_200 opens = refl
    to_200 closes = refl
    to_200 (moves i o) = refl
    to_200 (responds c) = refl
    to_200 (lasts d) = bucket_50_200 ms d

    gt_200 : (e : Event) → has_bucket ms (codes "gt_200ms") e ≡ lasts_from ms 200 e
    gt_200 requests = refl
    gt_200 opens = refl
    gt_200 closes = refl
    gt_200 (moves i o) = refl
    gt_200 (responds c) = refl
    gt_200 (lasts d) = bucket_gt_200 ms d

    step_requests :
        (m : ProxyMetrics) (e : Event)
        → (step ms m e).total_requests ≡ is_request e + m.total_requests
    step_requests m e =
        unfold step inc_requests inc_active dec_active add_bytes record_status record_latency in
        ground arith

    step_in :
        (m : ProxyMetrics) (e : Event)
        → (step ms m e).total_bytes_in ≡ bytes_in e + m.total_bytes_in
    step_in m e =
        unfold step inc_requests inc_active dec_active add_bytes record_status record_latency in
        ground arith

    step_out :
        (m : ProxyMetrics) (e : Event)
        → (step ms m e).total_bytes_out ≡ bytes_out e + m.total_bytes_out
    step_out m e =
        unfold step inc_requests inc_active dec_active add_bytes record_status record_latency in
        ground arith

-- Every close has an open before it; `n` connections are open at first.
abbrev pub IsPaired : ℕ → List Event → Type 0
IsPaired n [] = Unit
IsPaired n (requests ∷ es) = IsPaired n es
IsPaired n (opens ∷ es) = IsPaired (n + 1) es
IsPaired n (closes ∷ es) = (0 < n) × IsPaired (n - 1) es
IsPaired n (moves i o ∷ es) = IsPaired n es
IsPaired n (responds c ∷ es) = IsPaired n es
IsPaired n (lasts d ∷ es) = IsPaired n es

abbrev pub is_open : Event → ℕ
is_open requests = 0
is_open opens = 1
is_open closes = 0
is_open (moves i o) = 0
is_open (responds c) = 0
is_open (lasts d) = 0

abbrev pub is_close : Event → ℕ
is_close requests = 0
is_close opens = 0
is_close closes = 1
is_close (moves i o) = 0
is_close (responds c) = 0
is_close (lasts d) = 0

-- Where every dec_active has an inc_active before it, the active connections and those closed make
-- up those opened.
pub active_balanced :
    (ms : ℕ) (m : ProxyMetrics) (es : List Event)
    → IsPaired m.active_connections es
    → (run ms m es).active_connections + total is_close es ≡ m.active_connections + total is_open es
unfolding run step inc_requests inc_active dec_active add_bytes record_status record_latency
active_balanced ms m [] p = omega arith
active_balanced ms m (requests ∷ es) p = omega (arith, active_balanced ms (inc_requests m) es p)
active_balanced ms m (opens ∷ es) p = omega (arith, active_balanced ms (inc_active m) es p)
active_balanced ms m (closes ∷ es) (pos, p) =
    let less : (dec_active m).active_connections ≡ m.active_connections - 1 = ground (arith, pos) in
    omega (
      arith,
      active_balanced ms (dec_active m) es (subst (λ (n : ℕ). IsPaired n es) (sym less) p),
      less,
      pos,
    )
active_balanced ms m (moves i o ∷ es) p = omega (arith, active_balanced ms (add_bytes m i o) es p)
active_balanced ms m (responds c ∷ es) p =
    omega (arith, active_balanced ms (record_status m c) es p)
active_balanced ms m (lasts d ∷ es) p =
    omega (arith, active_balanced ms (record_latency m ms d) es p)
