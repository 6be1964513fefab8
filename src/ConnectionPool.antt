-- ===== src/ConnectionPool.antt =====
-- `PooledConnection` and `PerUpstreamPool` of proxy/upstream_pool.py, and `UpstreamKeepAliveConfig` of
-- proxy/models.py.
--
-- The semaphore is its free permits. `acquire` and `release` are cut at their awaits: `start` is what
-- `acquire` does once it has a permit, up to the opening of a connection, and `finish_open` the rest.
-- The connections that an operation closes are part of what it gives. Times are ticks of the
-- clock, whose readings are arguments; the end of a reader's script is an end of file that has come.
pub mod Reuse
pub mod Permits
mod Tests
use nginx_remake_v.Prelude.{
  ℕ, zero, suc, ◌+◌, ◌-◌, ◌*◌, ◌/◌, ◌%◌, ◌≤◌, ◌<◌, min, max, ◌≡◌, refl, sym, ap, ◌∙◌, subst, ◌≢◌,
  ◌↔◌, ◌⊎◌, inl, inr, Bool, true, false, not, ◌&&◌, ◌||◌, Option, none, some, List, [], ◌∷◌, ◌++◌,
  map, append-nil, append_assoc, arith, ap₂, ltb, leb, eqb, if◌then◌else◌, ltb→lt, leb→le, eqb_iff,
  Bool-cases, Option-cases, length, get_elem?, take, drop, length-append, take-append-drop,
  length-take, length-drop, Text, Bytes, codes, text_eq, text_eq_iff, Key, ◌==◌, number_keys,
  text_keys,
}
use nginx_remake_v.Prelude.Dict.{
  Dict, lookup, insert, lookup-insert, lookup-insert_self, lookup-insert_ne,
}
use nginx_remake_v.Exec.{Exception, timeout_error, Result, ok, err, spinning}
use nginx_remake_v.Stream
use nginx_remake_v.Stream.{StreamReader, StreamWriter}

pub record PooledConnection : Type 0 where
  pub reader : StreamReader
  pub writer : StreamWriter
  pub last_used : ℕ
  pub request_count : ℕ

-- `PooledConnection(reader, writer)`
pub pooled_connection : StreamReader → StreamWriter → ℕ → PooledConnection
pooled_connection r w now = record { reader = r; writer = w; last_used = now; request_count = 0 }

-- `reader.at_eof()`
abbrev pub is_empty {ℓ} : {A : Type ℓ} → List A → Bool
is_empty [] = true
is_empty (x ∷ xs) = false

unfoldable pub at_eof : StreamReader → Bool
at_eof r = is_empty r.buffer && is_empty r.coming

unfoldable pub is_closed : PooledConnection → Bool
unfolding at_eof
is_closed c = at_eof c.reader || c.writer.closing

pub close_connection : PooledConnection → PooledConnection
close_connection c = record c { writer = Stream.close c.writer }

pub record UpstreamKeepAliveConfig : Type 0 where
  pub max_idle : ℕ
  pub idle_timeout : ℕ
  pub max_requests : ℕ

pub record PerUpstreamPool : Type 0 where
  pub max_conns : ℕ
  pub keepalive_cfg : UpstreamKeepAliveConfig
  pub permits : ℕ
  pub idle : List PooledConnection

-- `PerUpstreamPool(...)`
pub per_upstream_pool : ℕ → UpstreamKeepAliveConfig → PerUpstreamPool
per_upstream_pool max_conns cfg = record {
  max_conns = max_conns;
  keepalive_cfg = cfg;
  permits = max_conns;
  idle = [];
}

-- The tests on a candidate in `acquire`.
pub is_usable : UpstreamKeepAliveConfig → ℕ → PooledConnection → Bool
is_usable cfg now c =
    not (is_closed c || leb cfg.max_requests c.request_count)
    && not (ltb cfg.idle_timeout (now - c.last_used))

-- `while self._idle`: the connection found, those to close, and those left.
pub scan :
    UpstreamKeepAliveConfig
    → ℕ
    → List PooledConnection
    → Option PooledConnection × List PooledConnection × List PooledConnection
scan cfg now [] = (none, [], [])
scan cfg now (c ∷ cs) =
    let (found, old, rest) = scan cfg now cs in
    if is_usable cfg now c then (some c, [], cs) else (found, c ∷ old, rest)

-- What `asyncio.open_connection` under `wait_for_connection` ends with.
pub data Opened : Type 0 where
  connected : StreamReader → StreamWriter → Opened
  failed : Exception → Opened

-- A connection taken over at once, or one to be opened.
pub data Started : Type 0 where
  reused : PooledConnection → Started
  opening : Started

-- After the permit: the scan under the lock, and the closing of the old connections.
pub start : PerUpstreamPool → ℕ → Started × PerUpstreamPool × List PooledConnection
start p now =
    let (found, old, rest) = scan p.keepalive_cfg now p.idle in
    let p' : PerUpstreamPool = record p { permits = p.permits - 1; idle = rest } in
    (
      elim found [ some c ↦ reused (record c { last_used = now }) | none ↦ opening ],
      p',
      map close_connection old,
    )

-- The opening has ended; `finally` gives the permit back where it failed.
pub finish_open : PerUpstreamPool → ℕ → Opened → Result PooledConnection × PerUpstreamPool
finish_open p now (connected r w) =
    (ok (record (pooled_connection r w now) { last_used = now; request_count = 1 }), p)
finish_open p now (failed e) = (err e, record p { permits = p.permits + 1 })

finish :
    ℕ
    → Opened
    → Started × PerUpstreamPool × List PooledConnection
    → Result PooledConnection × PerUpstreamPool × List PooledConnection
finish now o (reused c, p, old) = (ok c, p, old)
finish now o (opening, p, old) = let (r, p') = finish_open p now o in (r, p', old)

-- `acquire`, in the state in which its wait for a permit ends: with a permit, or by the total timeout.
pub acquire :
    PerUpstreamPool → ℕ → Opened → Result PooledConnection × PerUpstreamPool × List PooledConnection
unfolding finish
acquire p now o = if eqb p.permits 0 then (err timeout_error, p, []) else finish now o (start p now)

free : PerUpstreamPool → PerUpstreamPool
free p = record p { permits = p.permits + 1 }

-- `release(conn)`: the pool and the connections closed.
pub release : PerUpstreamPool → PooledConnection → ℕ → PerUpstreamPool × List PooledConnection
unfolding free
release p c now =
    if is_closed c
    then (free p, [])
    else let c' : PooledConnection = record c {
      last_used = now;
      request_count = c.request_count + 1;
    } in
      if leb p.keepalive_cfg.max_requests c'.request_count
      then (free p, close_connection c' ∷ [])
      else if ltb (length p.idle) p.keepalive_cfg.max_idle
      then (free (record p { idle = p.idle ++ c' ∷ [] }), [])
      else (free p, close_connection c' ∷ [])

-- The connections that `close_idle` keeps, and those that it closes.
pub reap :
    UpstreamKeepAliveConfig
    → ℕ
    → List PooledConnection
    → List PooledConnection × List PooledConnection
reap cfg now [] = ([], [])
reap cfg now (c ∷ cs) =
    let (keep, old) = reap cfg now cs in
    if is_closed c || ltb cfg.idle_timeout (now - c.last_used)
    then (keep, close_connection c ∷ old)
    else (c ∷ keep, old)

pub close_idle : PerUpstreamPool → ℕ → PerUpstreamPool × List PooledConnection
close_idle p now =
    let (keep, old) = reap p.keepalive_cfg now p.idle in (record p { idle = keep }, old)

pub shutdown : PerUpstreamPool → PerUpstreamPool × List PooledConnection
shutdown p = (record p { idle = [] }, map close_connection p.idle)
