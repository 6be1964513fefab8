-- ===== src/ClientHandler/Tests.antt =====
-- Requests handled on concrete networks.
use nginx_remake_v.Prelude.{
  ℕ, zero, suc, ◌≡◌, refl, true, false, some, [], ◌∷◌, Text, codes, number_keys, text_keys,
}
use nginx_remake_v.Prelude.Dict.{lookup}
use nginx_remake_v.Exec.{timeout_error, err}
use nginx_remake_v.Stream.{StreamWriter}
use nginx_remake_v.Headers.{HttpRequest}
use nginx_remake_v.Messages.{safe_method}
use nginx_remake_v.UpstreamPool.{Upstream, UpstreamsPool}
use nginx_remake_v.BufferedReader.Laws.{content}
use nginx_remake_v.Messages.{parse_request}
use nginx_remake_v.MessageParser.{delimiter}
use nginx_remake_v.MessageParser.Framing.{Splits}
use nginx_remake_v.ClientHandler.ReadHead.{Intake, read_head}
use nginx_remake_v.ClientHandler.Heads.{Heads, read_head-Heads}
use nginx_remake_v.Prelude.{Bytes, Option, arith, length, ◌<◌}
use nginx_remake_v.BufferedReader.{join}
use nginx_remake_v.ClientHandler.{
  Settings, Surroundings, ClientHandler, should_keep_alive, modify_request_headers, retry_delay,
}
use nginx_remake_v.ClientHandler.Handle.{conclude, attempts, handle}
use nginx_remake_v.Stream.{StreamReader, chunk, stall}
use nginx_remake_v.Python.Samples.{ascii}
use nginx_remake_v.Messages.{is_connection_close}
use nginx_remake_v.ConnectionPool.{PerUpstreamPool, connected}
use nginx_remake_v.UpstreamPool.{upstream_keys}
use nginx_remake_v.Metrics.{ProxyMetrics}
use nginx_remake_v.ClientHandler.Rounds.{unsafe_once}
use nginx_remake_v.ClientHandler.Balance.{Balanced, handle-Balanced}
use nginx_remake_v.ClientHandler.Rewriting.{rewritten, modify_request_headers-lookup}
use nginx_remake_v.ClientHandler.Errors.{as_it_is, Comes, conclude-Comes}

abbrev settings : Settings
settings = record {
  unicode = ascii;
  keepalive = record { enabled = true; timeout_ms = 60000; max_requests = 200 };
  retry_config = record { max_retries = 1; base_delay_ms = 100; max_delay_ms = 1000 };
  chunk_size = 4096;
  peer = some (codes "10.0.0.7");
  fuel = 9;
  ms = 1;
}

abbrev server : ℕ → Upstream
server n = record { host = codes "a"; port = n; tls = false }

abbrev connections : PerUpstreamPool
connections = record {
  max_conns = 2;
  keepalive_cfg = record { max_idle = 2; idle_timeout = 30; max_requests = 3 };
  permits = 2;
  idle = [];
}

abbrev upstreams : UpstreamsPool
upstreams = record {
  upstreams = server 1 ∷ server 2 ∷ [];
  next_index = 0;
  status = (server 1, true) ∷ (server 2, true) ∷ [];
  is_shutdown = false;
  pools = (server 1, connections) ∷ (server 2, connections) ∷ [];
  breakers = [];
}

abbrev fresh_writer : StreamWriter
fresh_writer = record { written = []; closing = false; drains = [] }

abbrev network : Text → StreamReader
network t = record { buffer = []; coming = chunk t ∷ stall ∷ [] }

abbrev no_metrics : ProxyMetrics
no_metrics = record {
  total_requests = 0;
  active_connections = 0;
  total_bytes_in = 0;
  total_bytes_out = 0;
  status_counts = [];
  latency_buckets = [];
}

abbrev handler : Text → ClientHandler
handler t = record {
  client_reader = record { inner = network t; unread_buffer = [] };
  client_writer = fresh_writer;
  upstream = server 1;
  pool = upstreams;
  metrics = no_metrics;
  bytes_in = 0;
  bytes_out = 0;
  status_code = 0;
  successful_request = true;
  response_committed = false;
  metrics_recorded = false;
  start_request_time = 5;
  sleeps = [];
}

abbrev answering : Text → Surroundings
answering t = record {
  acquired_at = 6;
  opened = connected (network t) fresh_writer;
  chosen_at = λ k. 7;
  released_at = 8;
}

-- The first upstream fails, the second answers.
abbrev failing_first : ℕ → Surroundings
failing_first zero = answering (codes "HTTP/1.1 503 Busy\r\ncontent-length: 0\r\n\r\n")
failing_first (suc n) = answering (codes "HTTP/1.1 200 OK\r\ncontent-length: 2\r\n\r\nhi")

abbrev asks : Text
asks = codes "GET / HTTP/1.1\r\nhost: x\r\n\r\n"

keeps_1_1 :
    should_keep_alive settings (record {
      method = codes "GET";
      path = codes "/";
      version = codes "HTTP/1.1";
      headers = (codes "connection", codes "Close") ∷ [];
    })
    ≡ false
unfolding should_keep_alive is_connection_close
keeps_1_1 = refl

-- The delays before retries double up to the limit.
delays :
    (retry_delay settings 0 ≡ 100)
    × (retry_delay settings 3 ≡ 800)
    × (retry_delay settings 4 ≡ 1000)
unfolding retry_delay
delays = (refl, refl, refl)

handle-Balanced_example :
    Balanced (handler asks) (handle settings failing_first 20 (handler asks)).1
handle-Balanced_example = handle-Balanced settings failing_first 20 (handler asks)

post_unsafe : safe_method ascii (codes "POST") ≡ false
unfolding safe_method
post_unsafe = refl

abbrev post : HttpRequest
post = record {
  method = codes "POST";
  path = codes "/";
  version = codes "HTTP/1.1";
  headers = (codes "x-forwarded-for", codes "10.0.0.1") ∷ [];
}

unsafe_once_example :
    attempts settings failing_first post 2 0 true (handler [])
    ≡ attempts settings failing_first post 1 0 true (handler [])
unsafe_once_example =
    unsafe_once settings failing_first post 1 0 true (handler []) post_unsafe refl refl

modify_request_headers-lookup_example :
    lookup (codes "x-forwarded-for") (modify_request_headers settings post true).headers
    ≡ rewritten settings post.headers true (codes "x-forwarded-for")
modify_request_headers-lookup_example =
    modify_request_headers-lookup settings post true (codes "x-forwarded-for")

conclude-Comes_example :
    Comes (as_it_is fresh_writer) timeout_error (conclude true (err timeout_error, handler []))
conclude-Comes_example = conclude-Comes true timeout_error (handler []) refl refl

-- The request, cut in the middle of the empty line, with two bytes behind it.
abbrev in_two : Intake
in_two = record {
  reader = record {
    inner = record {
      buffer = [];
      coming = chunk (codes "GET / HTTP/1.1\r\n\r") ∷ chunk (codes "\nab") ∷ [];
    };
    unread_buffer = [];
  };
  bytes = 0;
}

in_two_short : length (content in_two.reader) < 40
unfolding join
in_two_short = omega arith

read_head-Heads_example :
    (r : Option (Bytes × Bytes)) × Splits delimiter (content in_two.reader) r
    × Heads (parse_request ascii) r (read_head (parse_request ascii) 8 40 in_two)
read_head-Heads_example =
    read_head-Heads (parse_request ascii) 8 40 in_two (omega arith) tt in_two_short
