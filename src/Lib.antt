-- ===== src/Lib.antt =====
-- web3-indexer-go: an Ethereum indexer that fetches blocks concurrently, puts them in order,
-- processes them and persists the result. This library models its core, package internal/engine, the
-- request limiters of internal/limiter and the nonce manager of internal/emulator.
--
-- The parts and how they interact. A pool of workers (the fetcher, internal/engine/fetcher_*.go)
-- fetches blocks and pushes them, out of order, into a results channel. The sequencer
-- (internal/engine/sequencer_*.go) takes them from there, buffers those that come too early, gives
-- consecutive ones to the block processor, and pauses and resumes the fetcher. The coordinator
-- (internal/engine/orchestrator_*.go) is an actor: every height and mode of the program changes in its
-- loop, by messages. The block processor (internal/engine/processor_*.go) checks a block against its
-- parent, extracts its transfers and hands both to the coordinator; after a deep reorg it rolls the
-- database back. The asynchronous writer (internal/engine/async_writer_*.go) persists what is committed
-- and reports the height on disk to the coordinator. The watchdog and the lazy manager act on all of
-- these from outside; the RPC pools answer the fetcher and the processor. The state manager
-- (internal/engine/state_manager_*.go) starts and stops the indexer by the accesses of its users.
--
-- The files.
--   Base                  Boolean tests, lists over the native numbers, case splits.
--   Fetcher               internal/engine/fetcher_core.go and fetcher_control.go: the state that the
--                         others see, `Pause`, `Resume`, `IsPaused`, `ClearJobs`.
--   Sequencer.Buffer      the map from heights to block data, an association list.
--   Sequencer.State       the types of internal/engine/sequencer_core.go. The processor, the RPC client,
--                         the clock and the reorg channel are one record `Env` of functions of the
--                         history of calls: a theorem holds for whatever they answer.
--   Sequencer.Process     internal/engine/sequencer_process.go.
--   Sequencer.Handle      internal/engine/sequencer_batch.go: `handleBlock` and what it calls.
--   Sequencer.Batch       internal/engine/sequencer_batch.go: `handleBatch`; `collectBatch`.
--   Sequencer.Stall       internal/engine/sequencer_core.go: `handleStall` and the watchdog's resets.
--   Sequencer.Run         internal/engine/sequencer_core.go: the constructors and `Run`.
--   AsyncWriter           internal/engine/async_writer_types.go and async_writer_core.go: `Enqueue`.
--   Orchestrator.State    internal/engine/orchestrator_types.go.
--   Orchestrator.Process  internal/engine/orchestrator_loop.go: `process` and its handlers.
--   Orchestrator.Evaluate internal/engine/orchestrator_loop.go: the decisions of the tickers.
--   Orchestrator.Cursors  internal/engine/orchestrator_core.go: the operations on the cursors.
--   Orchestrator.Loop     internal/engine/orchestrator_loop.go `loop`, orchestrator_api.go `Dispatch`,
--                         whose two halves are steps between which others act.
--   AsyncWriter.Run       internal/engine/async_writer_core.go `run` and async_writer_flush.go; the
--                         database is a function that says which transactions commit.
--   Fetcher.Schedule      internal/engine/fetcher_schedule.go: `Schedule`.
--   StateManager          internal/engine/state_manager_*.go, with the indexer as a parameter.
--   SlidingWindow         internal/limiter/sliding_window.go: the ring buffer of request times.
--   HotBuffer             internal/engine/hot_buffer.go: the pool of the latest transfers.
--   GlobalState           internal/engine/global_state.go, with its mutex.
--   Processor.Types       what is read of go-ethereum's blocks, and the rows of
--                         internal/models/types.go.
--   Processor.Activity    internal/engine/processor_transfer.go, labels.go and signatures.go.
--   Processor.Extract     internal/engine/processor_block_part1.go and processor_batch.go: the
--                         transfers of a block's logs and transactions.
--   Processor.Anvil       the same files: the made-up transfers of an empty block.
--   Processor.Gas         internal/engine/processor_block_part1.go: `AnalyzeGas`.
--   Processor.Block       the same files: `ProcessBlock` and `ProcessBatch`. The effects on the other
--                         parts are a list.
--   Processor.Retry       internal/engine/processor_core.go: `ProcessBlockWithRetry`.
--   Processor.Reorg       internal/engine/processor_reorg.go, on the rows of its two tables.
--   Processor.Checkpoint  internal/engine/processor_checkpoint.go.
--   Fetcher.Range         internal/engine/fetcher_block.go: `fetchRangeWithLogs`.
--   Fetcher.Worker        internal/engine/fetcher_core.go: `worker`.
--   SelfHealing           internal/engine/self_healing.go.
--   CheckpointService     internal/engine/checkpoint_service.go.
--   Pipeline              a job's results in the sequencer: the two parts together.
--   Watchdog              internal/engine/watchdog_deadlock.go, on the sequencer, the coordinator and
--                         the fetcher of this library.
--   LazyManager           internal/engine/lazy_manager.go.
--   Consistency           internal/engine/consistency.go, on the rows of its tables.
--   HeightOracle          internal/engine/height_oracle.go.
--   Backpressure          internal/engine/dynamic_backpressure.go, in front of `Schedule`.
--   RpcPool               internal/engine/rpc_pool_*.go: the pool with weights, its construction in
--                         Setup, the basic pool in Legacy.
--   QuotaGuard            internal/engine/rpc_quota_guard.go, with its mutex.
--   RateLimiter           internal/limiter/rate_limiter.go: the rate that is chosen.
--   Rotator               internal/engine/rpc_rotator.go.
--   NonceManager          internal/emulator/nonce_manager.go.
-- The child modules of a file prove what their names say; the Tests modules run the code on concrete
-- inputs and apply the theorems there.
--
-- Conventions. A method is a function of the state before, with the state after and the result in a
-- pair. Names are the source's in snake_case. Block numbers are nonnegative; uint64 and int32 values
-- wrap where the source's arithmetic can (`u64`, `% 2 ^ 32`). Times are nanoseconds. Logs and metrics
-- are left out. What runs under a mutex is one step.
--
-- Bounds and fuel. `drain_loop`, the loop over the buffer, has the buffer's size plus one as fuel: each
-- round takes an entry out, so the fuel is never used up.
-- `schedule_loop` has two more than the length of the range: each job takes a block at least.
-- `search_loop`, the search for the common ancestor, recurses on the height; it stops by itself after
-- 1001 heights. `retry_loop`, `request_loop` and `next_loop` recurse on the number of attempts,
-- which for `retry` is five at most. The other loops recurse on a list or, in `evict_loop`, on the
-- count that they bring down.
--
-- Not modelled. The database layer and the network: SQL statements and RPC calls, whose answers are
-- parameters, or which are read as what they do to the rows of their tables where a theorem speaks of
-- them. The simulators and the emulator's transactions: they make test traffic. The sinks, the replay
-- of recorded files, the metadata enricher and the reconciliation. Metrics, health checks, logs, the
-- web and command-line code: they only observe or wire the parts.

mod Base
pub mod Fetcher
pub mod Sequencer
pub mod AsyncWriter
pub mod Orchestrator
pub mod StateManager
pub mod SlidingWindow
pub mod HotBuffer
pub mod GlobalState
pub mod Processor
pub mod Watchdog
pub mod Consistency
pub mod HeightOracle
pub mod RpcPool
pub mod NonceManager
pub mod Rotator
pub mod Backpressure
pub mod LazyManager
pub mod SelfHealing
pub mod CheckpointService
pub mod Pipeline
pub mod RateLimiter
pub mod QuotaGuard
