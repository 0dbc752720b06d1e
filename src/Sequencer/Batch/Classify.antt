-- ===== src/Sequencer/Batch/Classify.antt =====
-- The first phase of `handleBatch`.
use web3_indexer_go.Base.{
  ℕ, ◌+◌, ◌≡◌, refl, ap, true, Bool-cases, inl, inr, List, [], ◌∷◌, ◌++◌, arith,
}
use web3_indexer_go.Sequencer.State.{BlockData, Env}
use web3_indexer_go.Sequencer.Batch.{is_block_at, take_run, drop_run, classify}

module _ {Block Log Err : Type 0} (env : Env Block Log Err) where
  -- The blocks `n`, `n + 1`, …, all fetched without an error.
  abbrev pub IsRun : ℕ → List (BlockData Block Log Err) → Type 0
  IsRun n [] = Unit
  IsRun n (d ∷ ds) = (is_block_at env n d ≡ true) × IsRun (n + 1) ds

  take-append-drop-run :
      (n : ℕ) (ds : List (BlockData Block Log Err)) → take_run env n ds ++ drop_run env n ds ≡ ds
  unfolding take_run drop_run
  take-append-drop-run n [] = refl
  take-append-drop-run n (d ∷ ds) = ground (arith, take-append-drop-run (n + 1) ds)

  take_run-IsRun : (n : ℕ) (ds : List (BlockData Block Log Err)) → IsRun n (take_run env n ds)
  unfolding take_run
  take_run-IsRun n [] = tt
  take_run-IsRun n (d ∷ ds) = elim (Bool-cases (is_block_at env n d)) [
    | inl at ↦ rw at (at, take_run-IsRun (n + 1) ds)
    | inr not_at ↦ rw not_at tt
  ]

  -- No block of a batch is lost or moved when it is sorted out: the single blocks are those before the
  -- sequential ones and the remaining ones those after; the sequential ones are consecutive from the
  -- expected block on, and without errors.
  pub classify-partition :
      (n : ℕ) (batch : List (BlockData Block Log Err))
      → let c = classify env n batch in
        (c.single_blocks ++ (c.sequential_batch ++ c.remaining) ≡ batch)
        × IsRun n c.sequential_batch
  unfolding classify
  classify-partition n [] = (refl, tt)
  classify-partition n (d ∷ ds) = elim (Bool-cases (is_block_at env n d)) [
    | inl at ↦ rw at (ap (◌∷◌ d) (take-append-drop-run (n + 1) ds), (at, take_run-IsRun (n + 1) ds))
    | inr not_at ↦ let (whole, run) = classify-partition n ds in rw not_at (ap (◌∷◌ d) whole, run)
  ]
