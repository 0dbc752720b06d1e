-- ===== src/Orchestrator.antt =====
-- internal/engine/orchestrator_*.go: the coordinator that owns the indexer's heights and modes.
mod Tests
pub mod State
pub mod Process
pub mod Evaluate
pub mod Cursors
pub mod Loop
