-- ===== src/Sequencer/Stall.antt =====
-- sequencer_core.go: the stall handler, and the two resets that the watchdog calls.
pub mod Gap
pub mod Bypass
use web3_indexer_go.Base.{ℕ, ◌+◌, ◌-◌, ◌*◌, ◌&&◌, [], ◌∷◌, none, some, ltb, if◌then◌else◌, is_some}
use web3_indexer_go.Sequencer.Buffer.{min_buffered}
use web3_indexer_go.Sequencer.State.{schedule, tick, Env, Sequencer, log}

-- `time.Second`.
abbrev pub second : ℕ
second = 1000000000

module _ {Block Log Err : Type 0} (env : Env Block Log Err) where
  -- `time.Since(s.lastProgressAt)`.
  unfoldable pub get_idle_time : Sequencer Block Log Err → ℕ
  get_idle_time s = env.now s.history - s.last_progress_at

  -- The branch for a gap below the least buffered block `m`: three refetches, then the bypass.
  unfoldable pub heal_gap : Sequencer Block Log Err → ℕ → Sequencer Block Log Err
  heal_gap s m =
      if is_some s.fetcher && ltb s.gap_fill_count 3
      then record s {
        gap_fill_count = s.gap_fill_count + 1;
        history = schedule s.expected_block (m - 1) ∷ s.history;
      }
      else record s { last_progress_at = env.now s.history; expected_block = m; gap_fill_count = 0 }

  -- The branch for a block that the processor holds up.
  unfoldable pub skip_block : Sequencer Block Log Err → Sequencer Block Log Err
  skip_block s = record s {
    last_progress_at = env.now s.history;
    expected_block = s.expected_block + 1;
    gap_fill_count = 0;
  }

  unfoldable pub handle_stall : Sequencer Block Log Err → Sequencer Block Log Err
  unfolding get_idle_time heal_gap skip_block
  handle_stall s =
      if ltb (55 * second) (get_idle_time s)
      then elim (min_buffered s.buffer) [
        | none ↦ skip_block s
        | some m ↦ if ltb s.expected_block m then heal_gap s m else skip_block s
      ]
      else s

  -- The stall timer's case in the main loop; the clock may go on at each tick.
  unfoldable pub stall_tick : Sequencer Block Log Err → Sequencer Block Log Err
  stall_tick s = handle_stall (log s tick)

  unfoldable pub reset_expected_block : Sequencer Block Log Err → ℕ → Sequencer Block Log Err
  reset_expected_block s n = record s { expected_block = n; last_progress_at = env.now s.history }

module _ {Block Log Err : Type 0} where
  unfoldable pub get_expected_block : Sequencer Block Log Err → ℕ
  get_expected_block s = s.expected_block

  unfoldable pub clear_buffer : Sequencer Block Log Err → Sequencer Block Log Err
  clear_buffer s = record s { buffer = [] }
