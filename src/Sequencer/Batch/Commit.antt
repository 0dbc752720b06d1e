-- ===== src/Sequencer/Batch/Commit.antt =====
-- A batch of consecutive blocks: `ProcessBatch` takes it whole or not at all.
use web3_indexer_go.Base.{
  ℕ, ◌+◌, ◌≤◌, ◌≡◌, ◌≢◌, refl, ◌&&◌, ltb, leb, if◌then◌else◌, none, some, arith, length, List, [],
  is_some, not, false, ◌-◌, ◌∷◌,
}
use web3_indexer_go.Sequencer.Buffer.{lookup}
use web3_indexer_go.Sequencer.State.{
  BlockData, reorg, process_batch, History, Env, Sequencer, processor_error, done, failed,
}
use web3_indexer_go.Sequencer.Process.{process_buffer_continuations}
use web3_indexer_go.Sequencer.Process.Continue.{continuations-Drained}
use web3_indexer_go.Sequencer.Process.Drain.{Drained-available, Ended, process_run}
use web3_indexer_go.Sequencer.Handle.{after_block}
use web3_indexer_go.Sequencer.Batch.{
  take_run, drop_run, classify, handle_all, pause_if_high, commit_batch, handle_run, handle_batch,
}
use web3_indexer_go.Sequencer.Batch.Classify.{IsRun}

module _ {Block Log Err : Type 0} (env : Env Block Log Err) where
  take_run-IsRun :
      (n : ℕ) (ds : List (BlockData Block Log Err))
      → IsRun env n ds
      → (take_run env n ds ≡ ds) × (drop_run env n ds ≡ [])
  unfolding take_run drop_run
  take_run-IsRun n [] h = (refl, refl)
  take_run-IsRun n (d ∷ ds) h = ground (arith, take_run-IsRun (n + 1) ds h.1)

  classify-IsRun :
      (n : ℕ) (ds : List (BlockData Block Log Err))
      → IsRun env n ds
      → classify env n ds ≡ record { single_blocks = []; sequential_batch = ds; remaining = [] }
  unfolding classify
  classify-IsRun n [] h = refl
  classify-IsRun n (d ∷ ds) h = ground (arith, take_run-IsRun (n + 1) ds h.1)

  module _ (s : Sequencer Block Log Err) (d d' : BlockData Block Log Err)
      (ds : List (BlockData Block Log Err)) (run : IsRun env s.expected_block (d ∷ d' ∷ ds)) where
    abbrev batch : List (BlockData Block Log Err)
    batch = d ∷ d' ∷ ds

    -- The error of `ProcessBatch` on a batch of two or more consecutive blocks from the
    -- expected one on is returned, and the
    -- sequencer stays as it was but for the pause of its fetcher: the expected block, the buffer
    -- and the counters do not change.
    pub handle_batch-rejected :
        (e : Err)
        → env.process_all s.history (d ∷ d' ∷ ds) ≡ some e
        → let (t, r) = handle_batch env s (d ∷ d' ∷ ds) in
          (r ≡ failed (processor_error e))
          × (t ≡ record s {
            fetcher = (pause_if_high env s).fetcher;
            history = process_batch (d ∷ d' ∷ ds) (some e) ∷ s.history;
          })
    unfolding handle_batch handle_run after_block pause_if_high
    handle_batch-rejected e h =
        rw (classify-IsRun s.expected_block (d ∷ d' ∷ ds) run) (ground arith)

    abbrev committed : Sequencer Block Log Err
    committed = record s {
      expected_block = s.expected_block + length (d ∷ d' ∷ ds);
      fetcher = (pause_if_high env s).fetcher;
      last_progress_at = env.now (process_batch (d ∷ d' ∷ ds) none ∷ s.history);
      gap_fill_count = 0;
      history = process_batch (d ∷ d' ∷ ds) none ∷ s.history;
    }

    handle_batch-committed :
        env.process_all s.history (d ∷ d' ∷ ds) ≡ none
        → (process_buffer_continuations env committed).1 ≡ done
        → handle_batch env s (d ∷ d' ∷ ds) ≡ ((process_buffer_continuations env committed).0, done)
    unfolding handle_batch handle_run after_block pause_if_high commit_batch handle_all
    handle_batch-committed h ok =
        rw (classify-IsRun s.expected_block (d ∷ d' ∷ ds) run) (ground arith)

    -- When the processor reports no reorg: a batch of two or more consecutive blocks from the expected
    -- one on, which `ProcessBatch` takes, is given to it in one call, and the expected block moves past
    -- all of them. Then come calls on the buffered blocks from the end of the batch to the new expected
    -- block, each once and in ascending order; these leave the buffer and no other entry changes; and
    -- the new expected block is not buffered, or the processor, called on it, rejected it. No other
    -- call is made.
    pub handle_batch-commits :
        ((h : History Block Log Err) (b : BlockData Block Log Err) → env.process h b ≢ reorg)
        → env.process_all s.history (d ∷ d' ∷ ds) ≡ none
        → (k : ℕ)
        → let (t, r) = handle_batch env s (d ∷ d' ∷ ds) in
          let end = s.expected_block + length (d ∷ d' ∷ ds) in
          (r ≡ done)
          × (end ≤ t.expected_block)
          × (lookup k t.buffer
              ≡ (if leb end k && ltb k t.expected_block then none else lookup k s.buffer))
          × ((leb end k && ltb k t.expected_block && not (is_some (lookup k s.buffer))) ≡ false)
          × Ended env t (
              process_run s.buffer end
                (t.expected_block - end)
                (process_batch (d ∷ d' ∷ ds) none ∷ s.history))
    handle_batch-commits calm h k =
        let (ok, r) = continuations-Drained env committed calm in
        rw (handle_batch-committed h ok)
          (refl, r.advances, r.buffered k, Drained-available env committed _ r k, r.ended)
