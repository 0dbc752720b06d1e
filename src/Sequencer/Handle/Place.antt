-- ===== src/Sequencer/Handle/Place.antt =====
-- `handleBlockLocked` on a block that was fetched, by where its number lies.
use web3_indexer_go.Base.{
  ℕ, ◌≤◌, ◌<◌, ◌≡◌, refl, ap, ◌∙◌, Option, none, some, arith, length, ==_refl,
}
use web3_indexer_go.Sequencer.Buffer.{insert}
use web3_indexer_go.Sequencer.State.{BlockData, processed, process_block, Env, Sequencer, done, log}
use web3_indexer_go.Sequencer.Process.{advance, process_buffer_continuations}
use web3_indexer_go.Sequencer.Process.Step.{process_sequential-processed}
use web3_indexer_go.Sequencer.Handle.{
  buffer_limit, is_range_progress_signal, enforce_buffer_limit, hydrate, after_sequential, place,
  settle, handle_fetched, handle_block,
}

module _ {Block Log Err : Type 0} (env : Env Block Log Err) where
  -- The number of the block that the data holds.
  abbrev pub block_number : BlockData Block Log Err → Option ℕ
  block_number d = elim d.block [ none ↦ none | some b ↦ some (env.number_of b) ]

  -- Block `n`, fetched without an error.
  abbrev pub Fetched : ℕ → BlockData Block Log Err → Type 0
  Fetched n d = (d.err ≡ none) × (block_number d ≡ some n)

  pub handle_block-Fetched :
      (s : Sequencer Block Log Err) (n : ℕ) (d : BlockData Block Log Err)
      → Fetched n d
      → handle_block env s d ≡ place env s d n
  unfolding handle_block handle_fetched is_range_progress_signal hydrate settle
  handle_block-Fetched s n d f = ground arith

  module _ (s : Sequencer Block Log Err) (d : BlockData Block Log Err) where
    pub place-lt : (n : ℕ) → n < s.expected_block → place env s d n ≡ (s, done)
    unfolding place
    place-lt n h = ground arith

    pub place-eq :
        env.process s.history d ≡ processed
        → place env s d s.expected_block
          ≡ process_buffer_continuations env (advance env (log s (process_block d processed)))
    unfolding place
    place-eq h = rw (==_refl s.expected_block) (
        ap (after_sequential env) (process_sequential-processed env s d h)
        ∙ after_sequential-done _)
      where
        after_sequential-done :
            (t : Sequencer Block Log Err)
            → after_sequential env (t, done) ≡ process_buffer_continuations env t
        after_sequential-done t = unfold after_sequential in refl

    pub place-late :
        (n : ℕ)
        → s.expected_block < n
        → place env s d n ≡ enforce_buffer_limit env (record s { buffer = insert n d s.buffer })
    unfolding place
    place-late n h = ground arith

    -- Within the limit of the buffer a later block waits there.
    pub place-gt :
        (n : ℕ)
        → s.expected_block < n
        → length (insert n d s.buffer) ≤ buffer_limit s.chain_id
        → place env s d n ≡ (record s { buffer = insert n d s.buffer }, done)
    unfolding place enforce_buffer_limit
    place-gt n h room = ground arith
