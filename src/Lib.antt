-- ===== src/Lib.antt =====
-- kafka-proxy: a verification library of the proxy's core, for src/*.rs.
--
-- The proxy stands between Kafka clients and a cluster. A client connects to a listener for one
-- broker; its request frames go to that broker, and the responses come back. Responses that name
-- brokers (Metadata, DescribeCluster, FindCoordinator) are decoded, get the advertised addresses,
-- and are encoded again. In the 1:1 mode each client has a connection of its own to the broker; in
-- the pooled mode clients lease connections of a pool, and each request gets a correlation id of
-- the proxy's, which a table maps back to the client and its id.
--
-- Files, and what they model:
--   Base      lists, options and association lists (`HashMap`, `DashMap`) over native numbers
--   Wire      big-endian integers and slices of frames; Wire/Sink is the write half of a stream
--   Text      the string functions of Rust that the configuration uses; Text/Decimal writes numbers
--   Rewrite   src/rewrite.rs: `rewrite_response` and its handlers; Rewrite/Header the frame headers,
--             Rewrite/Varint the varint, Rewrite/Codec the interface of kafka_client's codec
--   Metrics   src/metrics.rs: counters and gauges; Metrics/Latency the histograms, Metrics/Render the
--             text for Prometheus, Metrics/Process the resident memory
--   Pool      src/pool.rs: Pool/Remap is `CidRemap`, Pool/Broker `BrokerPool`,
--             Pool/Acquire the whole of `acquire`, Pool/Wakeups its notification,
--             Pool/Remap/Interleaved the calls of the table by several tasks at once,
--             Pool/WriteLoop `write_loop` and Pool/Cleanup its end, Pool/Route `read_loop`
--   Relay     src/relay.rs: Relay/PerConnection has the handlers of `Relay::run_inner` and
--             Relay/Session its two tasks, Relay/IdleTimeout their timers; Relay/Pooled and
--             Relay/PooledWriter are the tasks of `PooledRelay::run_inner` and Relay/PooledEnds
--             their ends; Relay/Delivery follows a request through both files
--   Config    src/config.rs: the records, `validate`, and `parse_duration_str` in Config/Duration;
--             Config/Values loading and the visitors of durations, Config/Sections [api] to [log]
--   Proxy     src/lib.rs: `parse_mapping_entry`, `build_rewrite_map`, in Proxy/Bootstrap
--             `bootstrap_targets`, Proxy/Run `run`, Proxy/Accept the accept loops and
--             Proxy/Shutdown their end, Proxy/Admission their interleaving
--   Upstream  src/upstream.rs: `UpstreamAuth::from_config`; Upstream/Connect the calls of the builders
--   Api       src/api.rs: Api/Topics, Api/Consumers, Api/Messages, Api/Produce and Api/Connections are
--             the doctor endpoints, Api/Render how a record is shown, Api/Router the routes,
--             Api/Serve the server, Api/Callers the limit of calls
--   Main      src/main.rs: `main` and its logging; Main/LogFormat the line of an event, Main/Paths the
--             functions of `std::path` that it uses
-- The other files under a component hold its proofs; the files Tests hold runs and witnesses.
--
-- Conventions. A u8 to u64 is a ℕ with the wrap-around written out; a signed integer is its bit
-- pattern. A panic of a slice is `none`, an outer one where the code has an `Option` too. Bytes and
-- characters are ℕ. A channel, a peer and an instant are numbers that name them. Code between two
-- awaits is one step; a System in Pool/Remap/Alloc, Pool/Capacity and Proxy/Admission interleaves
-- such steps by a step relation, for any number of tasks. `CidRemap` has no lock over a whole call:
-- Pool/Remap/Interleaved splits `insert` at its test of the length, its id and its store. In all
-- other models `insert` and `fail_conn` are the calls with no other task in between.
--
-- A task's loop takes the list of what its `select!` yields. One loop runs on fuel, the polls of
-- `latest_messages`: the clock that its deadline is read from may never move, and a theorem gives the
-- rounds that are enough. The others are structural, or go by a well-founded order (the varint and
-- `decimal`). The compare-exchange loop of `alloc_cid_u` is a step relation.
--
-- Parameters. kafka_client's credentials are a record (`Client`). Its codec is a record of functions
-- (`Protocol`), and what the code relies on are the laws `RoundTrips`: decoding reads back what was
-- encoded, and a frame begins with its correlation id. Name resolution and connection
-- attempts are arguments, and so is what kafka_client answers to the endpoints. The write half of a
-- stream is a record of operations (`Sink`), and the laws `SinkLaws` say what it has taken; with
-- `NeverFails` it takes everything. axum's matcher of patterns is an argument that matches a pattern
-- without a capture literally (`MatchesLiterals`). tokio's `Notify` and `Semaphore` are records with
-- the laws `StoresOnePermit` and `GivesPermits`, and tracing is one with the law `SetsOnce`: a
-- program sets its subscriber once. `Outside` has what `run` meets: kafka_client, name resolution, and
-- a network in which an address that is bound is taken.
--
-- Not modelled: sockets, the executor and panics of tasks, TOML, serde and clap, how axum serves
-- requests, the tracing library, and the rounding of floating-point seconds.
pub mod Base
pub mod Wire
pub mod Text
pub mod Config
pub mod Metrics
pub mod Rewrite
pub mod Pool
pub mod Relay
pub mod Proxy
pub mod Upstream
pub mod Api
pub mod Main
