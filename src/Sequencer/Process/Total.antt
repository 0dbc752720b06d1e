-- ===== src/Sequencer/Process/Total.antt =====
-- The drain of the buffer always ends: `processBufferContinuationsLocked` of sequencer_process.go.
use web3_indexer_go.Base.{
  ℕ, zero, suc, ◌≤◌, ◌<◌, ◌≡◌, ◌≢◌, refl, ap, sym, ◌∙◌, inl, inr, none, some, ◌&&◌, arith, length,
  leb, ltb, if◌then◌else◌, Option-cases, is_some, not, ◌-◌, false,
}
use web3_indexer_go.Sequencer.Buffer.{lookup, delete}
use web3_indexer_go.Sequencer.Buffer.Size.{length-delete-lt}
use web3_indexer_go.Sequencer.State.{
  BlockData, reorg, History, Env, Sequencer, Result, done, failed, panicked, out_of_fuel,
}
use web3_indexer_go.Sequencer.Process.{
  advance, process_sequential, next_round, drain_loop, finish_drain, process_buffer_continuations,
}
use web3_indexer_go.Sequencer.Process.Drain.{
  drain_loop-missing, Drained-available, Ended, process_run,
}
use web3_indexer_go.Sequencer.Process.Continue.{continuations-Drained}
use web3_indexer_go.Sequencer.Process.Step.{
  process_sequential-ne-fuel, process_sequential-done, process_sequential-processed,
}

module _ {Block Log Err : Type 0} (env : Env Block Log Err) where
  -- After a round that was processed the buffer has not grown.
  process_sequential-buffer :
      (s : Sequencer Block Log Err) (d : BlockData Block Log Err)
      → (process_sequential env s d).1 ≡ done
      → (process_sequential env s d).0.buffer ≡ s.buffer
  unfolding advance
  process_sequential-buffer s d h =
      ap (λ r. r.0.buffer)
        (process_sequential-processed env s d (process_sequential-done env s d h))

  next_round-ends :
      (again : Sequencer Block Log Err → Sequencer Block Log Err × Result Err) (k : ℕ)
      (d : BlockData Block Log Err) (r : Sequencer Block Log Err × Result Err)
      → r.1 ≢ out_of_fuel
      → (r.1 ≡ done → (again r.0).1 ≢ out_of_fuel)
      → (next_round env again k d r).1 ≢ out_of_fuel
  unfolding next_round
  next_round-ends again k d (t, done) a b h = b refl h
  next_round-ends again k d (t, failed e) a b h = ground (arith, h)
  next_round-ends again k d (t, panicked) a b h = ground (arith, h)
  next_round-ends again k d (t, out_of_fuel) a b h = a refl

  -- The loop's round on a buffered block.
  drain_loop-found :
      (fuel : ℕ) (s : Sequencer Block Log Err) (d : BlockData Block Log Err)
      → lookup s.expected_block s.buffer ≡ some d
      → drain_loop env (suc fuel) s
        ≡ next_round env
            (drain_loop env fuel)
            s.expected_block
            d
            (process_sequential env (record s { buffer = delete s.expected_block s.buffer }) d)
  unfolding drain_loop
  drain_loop-found fuel s d e = rw (e, drain_loop) refl

  drain_loop-ends :
      (fuel : ℕ) (s : Sequencer Block Log Err)
      → length s.buffer < fuel
      → (drain_loop env fuel s).1 ≢ out_of_fuel
  drain_loop-ends zero s lt h = omega (arith, lt)
  drain_loop-ends (suc fuel) s lt h = elim (Option-cases (lookup s.expected_block s.buffer)) [
    | inl gone ↦ ground (arith, sym (ap (λ r. r.1) (drain_loop-missing env s fuel gone)) ∙ h)
    | inr (d, found) ↦
        let t : Sequencer Block Log Err = record s { buffer = delete s.expected_block s.buffer } in
        next_round-ends (drain_loop env fuel) s.expected_block d (process_sequential env t d)
          (process_sequential-ne-fuel env t d)
          (λ ok. drain_loop-ends fuel (process_sequential env t d).0 (
            omega (
              arith,
              lt,
              ap length (process_sequential-buffer t d ok),
              length-delete-lt s.expected_block d s.buffer found,
            )))
          (sym (ap (λ r. r.1) (drain_loop-found fuel s d found)) ∙ h)
  ]

  finish_drain-ends :
      (r : Sequencer Block Log Err × Result Err)
      → r.1 ≢ out_of_fuel
      → (finish_drain env r).1 ≢ out_of_fuel
  unfolding finish_drain
  finish_drain-ends (s, done) a h = ground (arith, h)
  finish_drain-ends (s, failed e) a h = ground (arith, h)
  finish_drain-ends (s, panicked) a h = ground (arith, h)
  finish_drain-ends (s, out_of_fuel) a h = a refl

  -- Whatever the processor answers, the loop over the buffer ends within the fuel it is given.
  pub continuations-end :
      (s : Sequencer Block Log Err) → (process_buffer_continuations env s).1 ≢ out_of_fuel
  unfolding process_buffer_continuations
  continuations-end s h =
      finish_drain-ends (drain_loop env (suc (length s.buffer)) s)
        (drain_loop-ends (suc (length s.buffer)) s (omega arith)) h

  -- When the processor reports no reorg, the drain of the buffer returns no error. The calls that it
  -- makes are of the processor, on the buffered blocks from the old expected block to the new one,
  -- each once, in ascending order and all processed; these blocks leave the buffer and no other entry
  -- changes. It ends because the new expected block is not buffered, or because the processor, called
  -- on it, rejected it; then it stays buffered.
  pub continuations-take :
      ((h : History Block Log Err) (d : BlockData Block Log Err) → env.process h d ≢ reorg)
      → (s : Sequencer Block Log Err) (k : ℕ)
      → let (t, r) = process_buffer_continuations env s in
        (r ≡ done)
        × (s.expected_block ≤ t.expected_block)
        × (lookup k t.buffer ≡ (
            if leb s.expected_block k && ltb k t.expected_block then none else lookup k s.buffer))
        × ((leb s.expected_block k && ltb k t.expected_block && not (is_some (lookup k s.buffer)))
            ≡ false)
        × Ended env t
            (process_run s.buffer s.expected_block (t.expected_block - s.expected_block) s.history)
  continuations-take calm s k =
      let (ok, r) = continuations-Drained env s calm in
      (ok, r.advances, r.buffered k, Drained-available env s _ r k, r.ended)
