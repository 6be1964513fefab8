-- ===== src/Lib.antt =====
-- A verification library for nginx_remake, an asynchronous HTTP/1.1 reverse proxy in Python.
--
-- The program. proxy/main.py loads a configuration (proxy/config.py, proxy/models.py) and starts a
-- server (proxy/proxy_server.py), which asks the rate limiter (proxy/rate_limiter.py) about each client
-- connection, and for each of its requests takes an upstream from the pool of proxy/upstream_pool.py,
-- which holds a circuit breaker and a pool of connections for each upstream, and makes a handler
-- (proxy/client_handler.py). A handler parses headers and streams bodies (proxy/http_parser.py, over the
-- reader of proxy/buffered_reader.py) between the client and a connection of the pool.
-- proxy/metrics.py counts what happened.
--
-- What models what.
--   Prelude           shared types, tests, dictionaries and list lemmas
--   Exec              results, exceptions, and coroutines as functions of a state
--   Exec/Rules        rules for what an action keeps and ensures
--   Python            Python's texts: int, isdigit, str of a number, split and join, and UTF-8 in Python/Utf8
--   Stream            what the code relies on of asyncio's StreamReader and StreamWriter
--   RateLimiter       proxy/rate_limiter.py: TokenBucket.consume is `consume`, RateLimiter.allow is `allow`
--   BufferedReader    proxy/buffered_reader.py: read, readexactly, readline and unread, by their names
--   MessageParser     proxy/http_parser.py, class HttpMessageParser: `feed`
--   Headers           proxy/http_parser.py: `_parse_headers`, HttpRequest, HttpRequestParser
--   BodyStreamer      proxy/http_parser.py, class BodyStreamer: stream_identity and stream_to_eof, with
--                     stream_chunked in BodyStreamer/Chunked
--   Messages          proxy/http_parser.py: HttpResponse, the parsers over bytes, to_bytes, stream_request,
--                     stream_response and send_error_response, by their names
--   CircuitBreaker    proxy/upstream_pool.py, class CircuitBreaker
--   ConnectionPool    proxy/upstream_pool.py, classes PooledConnection and PerUpstreamPool
--   UpstreamPool      proxy/upstream_pool.py, class UpstreamsPool; Upstream of proxy/models.py
--   Metrics           proxy/metrics.py, class ProxyMetrics, with the text of /metrics in Metrics/Page
--   ClientHandler     proxy/client_handler.py: `handle` in ClientHandler/Handle and an attempt of it in
--                     ClientHandler/Attempt, the loops that read headers in ClientHandler/ReadHead, the
--                     other methods by their names
--   ProxyServer       proxy/proxy_server.py: `handle_connection` and its parts; ProxyServer/Control has
--                     `_stop`, `_reload_config` and a round of each periodic task
--   Config            proxy/config.py: `load_dataclass` in Config/Load and `from_yaml` in Config/FromYaml,
--                     with the fields of the classes of proxy/models.py and proxy/timeouts.py
--   Startup           proxy/logger.py: `_parse_level`; proxy/main.py: the address that it listens on
-- A component's modules below it hold its laws, and its module Tests runs it on concrete values.
--
-- How state corresponds. An object is a record of its fields and a method is a function from the
-- object, with its results beside the object after it. An exception is a value of Exception in a
-- Result. A string or a byte string is a list of code points or of bytes.
--
-- The network. A StreamReader is what is buffered and a script of what comes: a chunk, a stall, which
-- stands for a wait that wait_for ends with TimeoutError, or a break of the connection; behind the
-- script is the end of the file. A StreamWriter is what was written, whether the proxy itself has
-- closed it, and how its next drains end. Theorems hold for all scripts, or name what they exclude.
--
-- Time. Readings of the clock are arguments, and count ticks. Token buckets keep their tokens as
-- numerators over a fixed scale, so that sums are exact; the code uses floats, and the bounds are about
-- the exact numbers.
--
-- Tasks. A method without a wait, or under one lock from start to end, is one function. In
-- ConnectionPool/Permits the parts of `acquire` and `release` between two waits are the steps of a
-- relation, in which tasks take turns in any order; elsewhere a method runs with no other task between
-- its parts. The cancellation of a task is not modelled.
--
-- A handler. `handle` is a function of the handler, which holds the client's streams, the pool and the
-- metrics. Of each attempt, Surroundings gives the clock's readings and how a connection opens, so that a
-- theorem for all of them holds for every network; a connection taken over from the idle ones has a
-- network of its own. The delays before retries are written down in `sleeps`.
--
-- A server. `handle_connection` is a function of the server and of the client's streams; what a handler
-- comes to within the total timeout, and where it is cut, is an argument. A Turn says what other tasks
-- and the clock do in one round of its loop.
--
-- Fuel. stream_identity takes the length plus one, and a chunk's loop the chunk's size plus three: each
-- round takes a byte or raises. The loops of stream_to_eof and stream_chunked have no bound of their
-- own and take their fuel as an argument; their theorems say how much is enough. So do the loops that
-- read headers, and Settings.fuel is the fuel of all loops of one handler, whose theorems hold for any.
-- The loop of attempts is bounded by max_retries, and that over the requests of a connection takes
-- max_requests and one. Result has a value `spinning` for a loop that used up its fuel.
--
-- Unicode. What the code takes from Python's tables, `str.lower`, `str.upper`, the decimal digits and the
-- other digits, is a parameter, Unicode; `str.strip`, `int` and UTF-8 are written out.
--
-- Configuration. What yaml.safe_load gives is an argument, a value of the type Value; floats are a type
-- with the functions that the code uses, the record Floats.
--
-- Not modelled: proxy/timeouts.py but for Timeouts and the effect of its waits, the set-up of the
-- logging library, of the event loop, of the listening socket, of the signals and of the aiohttp server
-- of /metrics, which are calls of libraries, log lines everywhere, a drain without wait_for that never
-- ends, and that a writer counts as closing once its peer or the transport has closed it.
pub mod Prelude
pub mod RateLimiter
pub mod Exec
pub mod Stream
pub mod BufferedReader
pub mod BodyStreamer
pub mod CircuitBreaker
pub mod ConnectionPool
pub mod UpstreamPool
pub mod Metrics
pub mod MessageParser
pub mod Headers
pub mod Python
pub mod Messages
pub mod ClientHandler
pub mod ProxyServer
pub mod Config
pub mod Startup
