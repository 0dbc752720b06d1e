-- ===== src/LazyManager/Tests.antt =====
-- The manager on concrete times, and the theorems at concrete inputs.
use web3_indexer_go.Base.{ℕ, true, false, none, List, [], ◌∷◌}
use web3_indexer_go.Fetcher.{Fetcher}
use web3_indexer_go.LazyManager.{LazyManager, Label, triggered, block_processed, ticked}

abbrev fetcher : Fetcher
fetcher = record {
  paused = false;
  stopped = false;
  jobs = [];
  jobs_cap = 10;
  results_depth = 0;
  results_cap = 10;
}

abbrev awake : LazyManager ℕ
awake = record {
  is_active = true;
  is_always_active = false;
  last_heartbeat = 100;
  last_block_time = 0;
  timeout = 60;
  fetcher = fetcher;
  state_manager = none;
}

abbrev busy : List Label
busy = ticked 150 0 0 ∷ ticked 200 50 20 ∷ triggered 210 ∷ block_processed 220 ∷ ticked 270 0 0 ∷ []
