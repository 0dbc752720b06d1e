-- ===== src/Consistency/Tests.antt =====
-- The linearity check on concrete tables.
use web3_indexer_go.Base.{ℕ, true, some, [], ◌∷◌}
use web3_indexer_go.Orchestrator.State.{Orchestrator}
use web3_indexer_go.Orchestrator.Cursors.{get_orchestrator}
use web3_indexer_go.Consistency.{Tables, Answers}

abbrev tables : Tables
tables = record {
  blocks = 8 ∷ 9 ∷ 12 ∷ [];
  transfers = 9 ∷ 12 ∷ 12 ∷ [];
  checkpoints = (31337, 12) ∷ [];
  last_processed_block = 12;
}

abbrev answers : Answers
answers = record { chain_head = some 9; db_readable = true; prunes = true; leaps = true }

abbrev coordinator : Orchestrator ℕ ℕ ℕ ℕ
unfolding get_orchestrator
coordinator = get_orchestrator 0 0 0
