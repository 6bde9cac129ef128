-- ===== src/Lib.antt =====
-- The verification library of tenso, which ingests Solana blocks, rebuilds an order-preserving
-- schedule of each block from the account locks of its transactions, and builds candles from the
-- balance changes.
--
-- The program's parts, from the chain to the dashboard:
--   crates/ingest-core fetches blocks by `getBlock`, decodes them, and resolves the account locks
--     and the net token changes of each transaction;
--   crates/contention rebuilds the schedule of a block;
--   crates/storage keeps the blocks, transactions, locks, changes and candles in DuckDB;
--   crates/ohlcv infers trades from balance changes and aggregates them into candles;
--   crates/cli joins the stages by bounded channels, and crates/api serves the results.
--
-- The files, and the code that each is about:
--   Prelude and its children: what the other files share. Lists, tests and order, the integers, and
--     association lists, which stand for hash maps.
--   Types: the types of crates/ingest-core/src/types.rs.
--   Accounts: `split_static_keys` and `resolve_account_locks` of
--     crates/ingest-core/src/account_resolution.rs.
--   Coalesce: the netting of balance changes, `coalesce_token_deltas` of
--     crates/ingest-core/src/rpc_client.rs and `coalesce_token_balance_rows` of
--     crates/storage/src/repository.rs, which are one function over two types of key.
--   Contention: `build_schedule` of crates/contention/src/lib.rs. Contention.Spec states the schedule
--     with no account state, and Contention.Conflicts the events; the other children relate the code
--     to them.
--   Floats: `f64` as an interface, and the laws of its order.
--   Ohlcv: `infer_trades` and `build_candles` of crates/ohlcv/src/lib.rs.
--   Raw, Decode, Rpc: the raw `getBlock` response, its decoding (`decode_block`, `extract_program_ids`,
--     `build_token_deltas`) and the errors of a request (`is_transient`, `decode_get_block_json`) in
--     crates/ingest-core/src/rpc_client.rs; Rpc.Client has `RpcClient` and its requests.
--   Retry: `retry_with_backoff` of crates/ingest-core/src/retry.rs, the loop and, in Retry.Delay, the
--     delays between the calls.
--   RateLimiter: `TokenBucketLimiter` of crates/ingest-core/src/rate_limiter.rs; a round of `acquire`
--     under the lock is a function, the loop of one task a list of its rounds, and the rounds of all
--     tasks a list of instants.
--   Fetch: the outcome of a slot and `fetch_one` of crates/ingest-core/src/block_fetch.rs, and in
--     Fetch.Pool the worker pool of `fetch_block_range`, a step relation in which any request may
--     complete next that the limiter has granted a token; Fetch.Pool.Starved has a limiter that
--     grants none.
--   Pipeline: `parse_block`, `flush_parsed_batch`, the store stage of `ingest` and
--     `snapshots_from_balance_rows` of crates/cli/src/main.rs. Pipeline.Tasks has the three
--     tasks and the two bounded channels between them, a step relation, to the ends of the tasks; a
--     task that fails closes its channels.
--   Storage: the methods of `Repository` that write, crates/storage/src/repository.rs, each a
--     function from the connection to a result and the connection after it. Storage.Statements has
--     the tables of crates/storage/src/schema.rs and what the statements do to them.
--     Storage.Invariant has the primary keys and the ranges of the columns, and
--     Storage.Invariant.Methods the methods that keep them; Storage.View takes the tables as maps
--     from their keys.
--   Archive: the table of candles, and the methods of `Repository` that read. Archive.Ranking has
--     GROUP BY and ORDER BY as the queries use them, Archive.Queries the queries that count,
--     Archive.Readback the way of a balance change into its table and back, and Archive.Pass
--     `build_and_store_candles` of crates/cli/src/main.rs.
--   Schema: the migrations of crates/storage/src/schema.rs, and `open` of crates/storage/src/lib.rs.
--   Ingest: `run_ingest` of crates/cli/src/main.rs from the ends of its tasks on, with the candle
--     pass over the range, the statistics and the errors; Ingest.Whole puts the pool of requests, the
--     tasks and these together.
--   Api: the handlers of crates/api/src/routes.rs on the state of crates/api/src/lib.rs, the
--     connection behind a lock that a panic poisons; Api.Static has the routes and the files of
--     crates/api/src/static_files.rs.
--   Tests: runs on concrete data, and the theorems at concrete data.
--
-- Bounds and fuel: the range of slots is of `u64`, and its end wraps around, as it does in a
-- build without overflow checks; a build with them panics there. The retry loop runs on fuel
-- `max_retries + 1`, which Retry shows to be enough; each other loop is over a list. The steps of
-- the pool and the turns of the tasks are relations, without fuel. Amounts are natural numbers;
-- the casts `as u64` and `as i64` wrap, as in the code. The sums in `i128` are unbounded, since
-- no block has 2^63 changes. A step and a number of transactions are below 2^31, so their casts
-- to `i32` are not written out.
--
-- What is not modelled: DuckDB itself, of which each statement does what its SQL says, or fails and
-- changes nothing (the parameter `fault` says when), and the order of rows that SQL leaves open (a
-- parameter); `serde_json` and the HTTP client; the arithmetic of `f64`; the pause of the
-- store stage, a wait; a panic in a worker of the ingest; axum and the parsing of a query
-- string; the assets of the dashboard; the command line; logging.
pub mod Accounts
pub mod Api
pub mod Archive
pub mod Coalesce
pub mod Contention
pub mod Decode
pub mod Fetch
pub mod Floats
pub mod Ingest
pub mod Ohlcv
pub mod Pipeline
pub mod Prelude
pub mod RateLimiter
pub mod Raw
pub mod Retry
pub mod Rpc
pub mod Schema
pub mod Storage
pub mod Tests
pub mod Types
