-- ===== src/Sequencer/Process.antt =====
-- sequencer_process.go: one block in sequence, the reorg handler, and the drain of the buffer.
pub mod Step
pub mod Drain
pub mod Continue
pub mod Total
use web3_indexer_go.Base.{ℕ, zero, suc, ◌+◌, ◌&&◌, Option, none, some, ltb, if◌then◌else◌, length}
use mathlib.Core.Option
use web3_indexer_go.Fetcher.{Fetcher, pause, resume, is_paused}
use web3_indexer_go.Sequencer.Buffer.{lookup, delete, insert, below}
use web3_indexer_go.Sequencer.State.{
  BlockData, Outcome, processed, reorg, rejected, process_block, send_reorg, Env, Sequencer,
  processor_error, reorg_need_refetch, context_done, Result, done, failed, panicked, out_of_fuel,
  log,
}

-- The fetcher is woken when the buffer has fewer than 200 entries.
unfoldable pub woken : ℕ → Option Fetcher → Option Fetcher
unfolding resume is_paused
woken size none = none
woken size (some f) = some (if ltb size 200 && is_paused f then resume f else f)

module _ {Block Log Err : Type 0} (env : Env Block Log Err) where
  -- The send on the reorg channel at the end of `handleReorgLocked`.
  unfoldable pub notify_reorg : Sequencer Block Log Err → ℕ → Sequencer Block Log Err × Result Err
  notify_reorg s n =
      if s.has_reorg_ch
      then (if env.reorg_sent s.history
          then (log s (send_reorg n), failed reorg_need_refetch)
          else (s, failed context_done))
      else (s, failed reorg_need_refetch)

  unfoldable pub rollback : Sequencer Block Log Err → ℕ → Sequencer Block Log Err
  unfolding below pause
  rollback s n = record s {
    fetcher = Option.map pause s.fetcher;
    buffer = below n s.buffer;
    expected_block = n;
  }

  unfoldable pub handle_reorg :
      Sequencer Block Log Err → BlockData Block Log Err → Sequencer Block Log Err × Result Err
  unfolding notify_reorg rollback
  handle_reorg s d = elim d.block [
    | none ↦ (s, panicked)
    | some b ↦ notify_reorg (rollback s (env.number_of b)) (env.number_of b)
  ]

  unfoldable pub advance : Sequencer Block Log Err → Sequencer Block Log Err
  advance s = record s {
    expected_block = s.expected_block + 1;
    last_progress_at = env.now s.history;
    gap_fill_count = 0;
  }

  unfoldable pub after_process :
      Outcome Err
      → Sequencer Block Log Err
      → BlockData Block Log Err
      → Sequencer Block Log Err × Result Err
  after_process processed s d = (advance s, done)
  after_process reorg s d = handle_reorg s d
  after_process (rejected e) s d = (s, failed (processor_error e))

  unfoldable pub process_sequential :
      Sequencer Block Log Err → BlockData Block Log Err → Sequencer Block Log Err × Result Err
  process_sequential s d =
      let r = env.process s.history d in after_process r (log s (process_block d r)) d

  -- After an entry `k` was taken out of the buffer and processed: `again` goes on with the loop; an
  -- error puts the entry back and ends the loop.
  unfoldable pub next_round :
      (Sequencer Block Log Err → Sequencer Block Log Err × Result Err)
      → ℕ
      → BlockData Block Log Err
      → Sequencer Block Log Err × Result Err
      → Sequencer Block Log Err × Result Err
  next_round again k d (t, done) = again t
  next_round again k d (t, failed e) = (record t { buffer = insert k d t.buffer }, done)
  next_round again k d (t, panicked) = (t, panicked)
  next_round again k d (t, out_of_fuel) = (t, out_of_fuel)

  -- The loop of `processBufferContinuationsLocked`.
  unfoldable pub drain_loop : ℕ → Sequencer Block Log Err → Sequencer Block Log Err × Result Err
  unfolding next_round
  drain_loop zero s = (s, out_of_fuel)
  drain_loop (suc fuel) s = elim (lookup s.expected_block s.buffer) [
    | none ↦ (s, done)
    | some d ↦
        next_round (drain_loop fuel) s.expected_block d
          (process_sequential (record s { buffer = delete s.expected_block s.buffer }) d)
  ]

  unfoldable pub resume_if_low : Sequencer Block Log Err → Sequencer Block Log Err
  unfolding woken
  resume_if_low s = record s { fetcher = woken (length s.buffer) s.fetcher }

  unfoldable pub finish_drain :
      Sequencer Block Log Err × Result Err → Sequencer Block Log Err × Result Err
  unfolding resume_if_low
  finish_drain (s, done) = (resume_if_low s, done)
  finish_drain (s, r) = (s, r)

  -- `processBufferContinuationsLocked`. Each round takes an entry out of the buffer.
  unfoldable pub process_buffer_continuations :
      Sequencer Block Log Err → Sequencer Block Log Err × Result Err
  unfolding finish_drain
  process_buffer_continuations s = finish_drain (drain_loop (suc (length s.buffer)) s)

  unfoldable pub drain_buffer : Sequencer Block Log Err → Sequencer Block Log Err × Result Err
  drain_buffer s = process_buffer_continuations s

module _ {Block Log Err : Type 0} where
  unfoldable pub get_buffer_size : Sequencer Block Log Err → ℕ
  get_buffer_size s = length s.buffer
