-- ===== src/GlobalState/Tests.antt =====
-- The shared state with concrete values, and the theorem at a concrete input.
use web3_indexer_go.Base.{ℕ, ◌≡◌, refl, false, none, [], is_some}
use web3_indexer_go.Orchestrator.State.{running, idle}
use web3_indexer_go.GlobalState.{
  free, GlobalState, Snapshot, update_chain_head, advance_db_cursor, set_system_state, changed,
  lock, snapshot, notify_subscribers,
}
use web3_indexer_go.GlobalState.Deadlock.{updates_deadlock}

abbrev values : Snapshot ℕ
values = record {
  on_chain_height = 100;
  db_cursor = 90;
  total_transfers = 0;
  system_state = running;
  pipeline_depth = 0;
  quota_usage = 0;
  last_update = 0;
  jobs_queue_depth = 0;
  results_depth = 0;
  sequencer_buffer = 0;
}

abbrev shared : GlobalState ℕ
shared = record {
  mutex = free;
  values = values;
  max_jobs_capacity = 200;
  max_results_capacity = 5000;
  max_sequencer_buffer = 1000;
  subscribers = [];
}

greater_height_waits : update_chain_head 1 101 shared ≡ none
unfolding update_chain_head changed lock notify_subscribers snapshot
greater_height_waits = refl

updates_deadlock_example :
    (is_some (update_chain_head 1 101 shared) ≡ false)
    × (is_some (advance_db_cursor 1 101 shared) ≡ false)
    × (is_some (set_system_state 1 idle shared) ≡ false)
updates_deadlock_example = updates_deadlock 1 101 idle shared refl
