-- ===== src/Sequencer/Batch.antt =====
-- sequencer_batch.go: `handleBatch`, and sequencer_core.go: `collectBatch` and the main loop.
pub mod Arrivals
pub mod Classify
pub mod Commit
pub mod Sort
use web3_indexer_go.Base.{
  ℕ, ◌+◌, Bool, true, false, ◌&&◌, not, List, [], ◌∷◌, Option, none, some, ltb, ◌==◌, if◌then◌else◌,
  length, take, is_some,
}
use web3_indexer_go.Fetcher.{Fetcher, pause, is_paused}
use web3_indexer_go.Sequencer.State.{
  BlockData, process_batch, Env, Sequencer, processor_error, Result, done, failed, log,
  get_block_num,
}
use web3_indexer_go.Sequencer.Process.{process_buffer_continuations}
use web3_indexer_go.Sequencer.Handle.{handle_block, after_block}

-- What the first phase of `handleBatch` sorts a batch into. (`bufferBlocks` stays empty there.)
pub record Classified (Block Log Err : Type 0) : Type 0 where
  pub single_blocks : List (BlockData Block Log Err)
  pub sequential_batch : List (BlockData Block Log Err)
  pub remaining : List (BlockData Block Log Err)

-- The fetcher is paused when the buffer has more than 2000 entries.
unfoldable pub held_back : ℕ → Option Fetcher → Option Fetcher
unfolding pause is_paused
held_back size none = none
held_back size (some f) = some (if ltb 2000 size && not (is_paused f) then pause f else f)

module _ {Block Log Err : Type 0} (env : Env Block Log Err) where
  -- The block numbered `n`, fetched without an error.
  unfoldable pub is_block_at : ℕ → BlockData Block Log Err → Bool
  unfolding get_block_num
  is_block_at n d = elim (get_block_num env d) [
    | none ↦ false
    | some m ↦ m == n && not (is_some d.err)
  ]

  -- The inner loop: the longest run of blocks numbered `n`, `n + 1`, … and what follows it.
  unfoldable pub take_run : ℕ → List (BlockData Block Log Err) → List (BlockData Block Log Err)
  take_run n [] = []
  take_run n (d ∷ ds) = if is_block_at n d then d ∷ take_run (n + 1) ds else []

  unfoldable pub drop_run : ℕ → List (BlockData Block Log Err) → List (BlockData Block Log Err)
  drop_run n [] = []
  drop_run n (d ∷ ds) = if is_block_at n d then drop_run (n + 1) ds else d ∷ ds

  -- The outer loop.
  unfoldable pub classify : ℕ → List (BlockData Block Log Err) → Classified Block Log Err
  classify n [] = record { single_blocks = []; sequential_batch = []; remaining = [] }
  classify n (d ∷ ds) =
      if is_block_at n d
      then record {
        single_blocks = [];
        sequential_batch = d ∷ take_run (n + 1) ds;
        remaining = drop_run (n + 1) ds;
      }
      else (let rest = classify n ds in record rest { single_blocks = d ∷ rest.single_blocks })

  unfoldable pub handle_all :
      Sequencer Block Log Err
      → List (BlockData Block Log Err)
      → Sequencer Block Log Err × Result Err
  handle_all s [] = (s, done)
  handle_all s (d ∷ ds) = after_block env (handle_block env s d) (λ t. handle_all t ds)

  unfoldable pub pause_if_high : Sequencer Block Log Err → Sequencer Block Log Err
  unfolding held_back
  pause_if_high s = record s { fetcher = held_back (length s.buffer) s.fetcher }

  -- Phase 3A for a batch of `k` blocks that `ProcessBatch` took.
  unfoldable pub commit_batch : Sequencer Block Log Err → ℕ → Sequencer Block Log Err × Result Err
  commit_batch s k = process_buffer_continuations env (record s {
    expected_block = s.expected_block + k;
    last_progress_at = env.now s.history;
    gap_fill_count = 0;
  })

  unfoldable pub handle_run :
      Sequencer Block Log Err
      → List (BlockData Block Log Err)
      → Sequencer Block Log Err × Result Err
  handle_run s [] = (s, done)
  handle_run s (d ∷ []) = handle_block env s d
  handle_run s (d ∷ d' ∷ ds) =
      let run = d ∷ d' ∷ ds in
      let r = env.process_all s.history run in
      let t = log s (process_batch run r) in
      elim r [ some e ↦ (t, failed (processor_error e)) | none ↦ commit_batch t (length run) ]

  unfoldable pub handle_batch :
      Sequencer Block Log Err
      → List (BlockData Block Log Err)
      → Sequencer Block Log Err × Result Err
  handle_batch s batch =
      let c = classify s.expected_block batch in
      after_block env
        (after_block env (handle_run (pause_if_high s) c.sequential_batch)
          (λ t. handle_all t c.remaining))
        (λ t. handle_all t c.single_blocks)

  -- The comparison that `collectBatch` sorts by: data without a number first.
  unfoldable pub less : BlockData Block Log Err → BlockData Block Log Err → Bool
  less a b = elim (get_block_num env a) [
    | none ↦ true
    | some m ↦ elim (get_block_num env b) [ none ↦ false | some n ↦ ltb m n ]
  ]

  unfoldable pub insert_sorted :
      BlockData Block Log Err → List (BlockData Block Log Err) → List (BlockData Block Log Err)
  insert_sorted d [] = d ∷ []
  insert_sorted d (x ∷ xs) = if less d x then d ∷ x ∷ xs else x ∷ insert_sorted d xs

  -- `sort.Slice` by insertion, as it sorts short slices; it leaves the order of equals open.
  unfoldable pub sort_into :
      List (BlockData Block Log Err)
      → List (BlockData Block Log Err)
      → List (BlockData Block Log Err)
  sort_into sorted [] = sorted
  sort_into sorted (d ∷ ds) = sort_into (insert_sorted d sorted) ds

  -- `arrived` is what the channel delivers within 10 ms; a batch has 100 blocks at most.
  unfoldable pub collect_batch :
      BlockData Block Log Err → List (BlockData Block Log Err) → List (BlockData Block Log Err)
  collect_batch first arrived = sort_into [] (first ∷ take 99 arrived)
