-- ===== src/Watchdog/Tests.antt =====
-- The watchdog on a stalled indexer, and the theorems at concrete inputs.
use web3_indexer_go.Base.{ℕ, ◌≡◌, refl, true, false, none, some, arith, []}
use web3_indexer_go.Fetcher.{Fetcher}
use web3_indexer_go.Sequencer.State.{BlockData, processed, Env, done}
use web3_indexer_go.Sequencer.Handle.{handle_block}
use web3_indexer_go.Sequencer.Stall.{get_idle_time}
use web3_indexer_go.Orchestrator.Cursors.{get_orchestrator}
use web3_indexer_go.Watchdog.{
  DeadlockWatchdog, new_deadlock_watchdog, System, Answers, check_and_heal,
}
use web3_indexer_go.Watchdog.Healing.{IsTorn, check_and_heal-heals_once, check_and_heal-drops_gap}

-- Blocks, logs, rows and errors are numbers; 121 seconds have passed.
abbrev late : Env ℕ ℕ ℕ
late = record {
  number_of = λ b. b;
  now = λ h. 121000000000;
  process = λ h d. processed;
  process_all = λ h ds. none;
  client = false;
  block_by_number = λ h n. none;
  filter_logs = λ h n. none;
  reorg_sent = λ h. true;
}

abbrev watchdog : DeadlockWatchdog
watchdog = record new_deadlock_watchdog { enabled = true; has_fetcher = true }

abbrev stalled : System ℕ ℕ ℕ ℕ ℕ ℕ ℕ
unfolding get_orchestrator
stalled = record {
  sequencer = record {
    expected_block = 101;
    buffer = [];
    fetcher = none;
    has_reorg_ch = true;
    chain_id = 1;
    last_progress_at = 0;
    gap_fill_count = 0;
    history = [];
  };
  orchestrator = get_orchestrator 0 0 0;
  cursor = 100;
}

abbrev answers : Answers
answers = record { latest_block_number = some 5000; sync_cursor = some 100; cursor_updated = true }

is_torn : IsTorn late watchdog answers stalled 5000 100
unfolding get_idle_time stalled
is_torn = record {
  enabled = refl;
  stalled = omega arith;
  rpc_height = refl;
  db_height = refl;
  updated = refl;
  gap = omega arith;
  behind = omega arith;
}

abbrev block_4000 : BlockData ℕ ℕ ℕ
block_4000 = record {
  number = some 4000;
  range_end = none;
  block = some 4000;
  err = none;
  logs = [];
}

abbrev fetcher : Fetcher
fetcher = record {
  paused = false;
  stopped = false;
  jobs = [];
  jobs_cap = 100;
  results_depth = 0;
  results_cap = 100;
}

abbrev grown : Answers
grown = record { latest_block_number = some 5900; sync_cursor = some 100; cursor_updated = true }

check_and_heal-heals_once_example :
    let t = (check_and_heal late true watchdog answers stalled).0 in
    (check_and_heal late true watchdog grown t).0 ≡ t
check_and_heal-heals_once_example =
    check_and_heal-heals_once watchdog late late answers grown stalled
      (check_and_heal late true watchdog answers stalled).0 true true 5000 100 5900 is_torn
      (omega arith) refl (omega arith)

check_and_heal-drops_gap_example :
    let t = (check_and_heal late true watchdog answers stalled).0.sequencer in
    handle_block late t block_4000 ≡ (t, done)
check_and_heal-drops_gap_example =
    check_and_heal-drops_gap late watchdog answers stalled true 5000 100 block_4000 4000 is_torn
      refl refl (omega arith)
