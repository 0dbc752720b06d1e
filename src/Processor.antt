-- ===== src/Processor.antt =====
-- internal/engine/processor_*.go: from a fetched block to the task that is written, and the rollback
-- of a reorganisation.
pub mod Types
pub mod Activity
pub mod Extract
pub mod Anvil
pub mod Gas
pub mod Block
pub mod Retry
pub mod Reorg
pub mod Checkpoint
mod Tests
