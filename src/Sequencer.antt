-- ===== src/Sequencer.antt =====
-- internal/engine/sequencer_core.go, sequencer_batch.go and sequencer_process.go: blocks that
-- concurrent workers fetch arrive out of order and are processed in order.
pub mod Buffer
pub mod State
pub mod Process
pub mod Handle
pub mod Batch
pub mod Stall
pub mod Run
mod Tests
