-- ===== src/Sequencer/Run/Bounded.antt =====
-- An invariant of the main loop: the count of refetches of a gap.
use web3_indexer_go.Base.{
  ℕ, zero, suc, ◌+◌, ◌≤◌, Bool, Option, Option-cases, inl, inr, none, some, arith, length, List, [],
  ◌∷◌,
}
use web3_indexer_go.Fetcher.{Fetcher}
use web3_indexer_go.Sequencer.Buffer.{lookup, insert, min_buffered}
use web3_indexer_go.Sequencer.State.{
  BlockData, Env, Sequencer, Result, done, Outcome, log, fetch_block, fetch_logs, get_block_num,
}
use web3_indexer_go.Sequencer.Process.{
  notify_reorg, rollback, handle_reorg, advance, after_process, process_sequential, next_round,
  drain_loop, resume_if_low, finish_drain, process_buffer_continuations, drain_buffer,
}
use web3_indexer_go.Sequencer.Handle.{
  enforce_buffer_limit, teleport_progress, hydrate, after_sequential, place, settle, handle_fetched,
  retry_fetch, handle_fetch_error, handle_block, after_block,
}
use web3_indexer_go.Sequencer.Batch.{
  handle_all, pause_if_high, commit_batch, handle_run, handle_batch, classify, collect_batch,
}
use web3_indexer_go.Sequencer.Stall.{handle_stall, stall_tick}
use web3_indexer_go.Sequencer.Run.{
  Signal, receives, context_ends, stall_timer, pulse_timer, channel_closed, new_sequencer, run_step,
  continue_with, run, Loop, continues,
}

module _ {Block Log Err : Type 0} (env : Env Block Log Err) where
  abbrev Few : Sequencer Block Log Err → Type 0
  Few s = s.gap_fill_count ≤ 3

  process-Few :
      (o : Outcome Err) (s : Sequencer Block Log Err) (d : BlockData Block Log Err)
      → Few s
      → Few (after_process env o s d).0
  unfolding after_process handle_reorg notify_reorg rollback advance
  process-Few o s d h = ground arith

  next_round-Few :
      (again : Sequencer Block Log Err → Sequencer Block Log Err × Result Err) (k : ℕ)
      (d : BlockData Block Log Err) (p : Sequencer Block Log Err × Result Err)
      → ((t : Sequencer Block Log Err) → Few t → Few (again t).0)
      → Few p.0
      → Few (next_round env again k d p).0
  unfolding next_round
  next_round-Few again k d (t, done) keep h = keep t h
  next_round-Few again k d (t, r) keep h = h

  drain_loop-Few : (fuel : ℕ) (s : Sequencer Block Log Err) → Few s → Few (drain_loop env fuel s).0
  unfolding drain_loop process_sequential
  drain_loop-Few zero s h = h
  drain_loop-Few (suc fuel) s h = elim (Option-cases (lookup s.expected_block s.buffer)) [
    | inl gone ↦ rw (gone, drain_loop) h
    | inr (d, found) ↦
        rw (found, drain_loop)
          (next_round-Few (drain_loop env fuel) s.expected_block d _
            (λ t k. drain_loop-Few fuel t k) (process-Few _ _ d h))
  ]

  continuations-Few :
      (s : Sequencer Block Log Err) → Few s → Few (process_buffer_continuations env s).0
  unfolding process_buffer_continuations finish_drain resume_if_low
  continuations-Few s h = ground (arith, drain_loop-Few (suc (length s.buffer)) s h)

  after_sequential-Few :
      (p : Sequencer Block Log Err × Result Err) → Few p.0 → Few (after_sequential env p).0
  unfolding after_sequential
  after_sequential-Few (s, done) h = continuations-Few s h
  after_sequential-Few (s, r) h = h

  enforce-Few : (s : Sequencer Block Log Err) → Few s → Few (enforce_buffer_limit env s).0
  unfolding enforce_buffer_limit
  enforce-Few s h = elim (Option-cases (min_buffered s.buffer)) [
    | inl empty ↦ ground arith
    | inr (m, least) ↦ ground (arith, continuations-Few (record s { expected_block = m }) h)
  ]

  teleport-Few : (s : Sequencer Block Log Err) (e : ℕ) → Few s → Few (teleport_progress env s e).0
  unfolding teleport_progress
  teleport-Few s e h = ground (
    arith,
    continuations-Few (record s { expected_block = e + 1; last_progress_at = env.now s.history }) h,
  )

  place-Few :
      (s : Sequencer Block Log Err) (d : BlockData Block Log Err) (n : ℕ)
      → Few s
      → Few (place env s d n).0
  unfolding place process_sequential
  place-Few s d n h = ground (
    arith,
    after_sequential-Few (process_sequential env s d) (process-Few _ _ d h),
    enforce-Few (record s { buffer = insert n d s.buffer }) h,
  )

  settle-Few :
      (p : Sequencer Block Log Err × BlockData Block Log Err) → Few p.0 → Few (settle env p).0
  unfolding settle
  settle-Few (s, d) h = elim (Option-cases d.block) [
    | inr (b, full) ↦ ground (arith, place-Few s d (env.number_of b) h)
    | inl bare ↦ elim (Option-cases d.number) [
      | inl unknown ↦ ground arith
      | inr (n, known) ↦ ground (arith, place-Few s d n h)
    ]
  ]

  hydrate-Few :
      (s : Sequencer Block Log Err) (d : BlockData Block Log Err) → Few s → Few (hydrate env s d).0
  unfolding hydrate
  hydrate-Few s d h = ground arith

  handle_fetched-Few :
      (s : Sequencer Block Log Err) (d : BlockData Block Log Err)
      → Few s
      → Few (handle_fetched env s d).0
  unfolding handle_fetched
  handle_fetched-Few s d h = elim (Option-cases d.range_end) [
    | inl no_range ↦ ground (arith, settle-Few (hydrate env s d) (hydrate-Few s d h))
    | inr (e, range) ↦
        ground (arith, settle-Few (hydrate env s d) (hydrate-Few s d h), teleport-Few s e h)
  ]

  retry_fetch-Few :
      (s : Sequencer Block Log Err) (d : BlockData Block Log Err) (n : ℕ)
      → Few s
      → Few (retry_fetch env s d n).0
  unfolding retry_fetch
  retry_fetch-Few s d n h = elim (Option-cases (env.block_by_number s.history n)) [
    | inl gone ↦ ground arith
    | inr (b, got) ↦
        let t = log (log s (fetch_block n)) (fetch_logs n) in
        elim (Option-cases (env.filter_logs (fetch_block n ∷ s.history) n)) [
          | inl failed_too ↦ ground arith
          | inr (logs, got_logs) ↦
              ground (
                arith,
                handle_fetched-Few t (record d { block = some b; logs = logs; err = none }) h,
              )
        ]
  ]

  handle_block-Few :
      (s : Sequencer Block Log Err) (d : BlockData Block Log Err)
      → Few s
      → Few (handle_block env s d).0
  unfolding handle_block handle_fetch_error
  handle_block-Few s d h = elim (Option-cases (get_block_num env d)) [
    | inl unknown ↦ ground (arith, handle_fetched-Few s d h)
    | inr (n, known) ↦ ground (arith, handle_fetched-Few s d h, retry_fetch-Few s d n h)
  ]

  after_block-Few :
      (p : Sequencer Block Log Err × Result Err)
      (k : Sequencer Block Log Err → Sequencer Block Log Err × Result Err)
      → ((t : Sequencer Block Log Err) → Few t → Few (k t).0)
      → Few p.0
      → Few (after_block env p k).0
  unfolding after_block
  after_block-Few (s, done) k keep h = keep s h
  after_block-Few (s, r) k keep h = h

  handle_all-Few :
      (s : Sequencer Block Log Err) (ds : List (BlockData Block Log Err))
      → Few s
      → Few (handle_all env s ds).0
  unfolding handle_all
  handle_all-Few s [] h = h
  handle_all-Few s (d ∷ ds) h =
      after_block-Few (handle_block env s d) (λ t. handle_all env t ds)
        (λ t k. handle_all-Few t ds k) (handle_block-Few s d h)

  handle_run-Few :
      (s : Sequencer Block Log Err) (ds : List (BlockData Block Log Err))
      → Few s
      → Few (handle_run env s ds).0
  unfolding handle_run commit_batch
  handle_run-Few s [] h = h
  handle_run-Few s (d ∷ []) h = handle_block-Few s d h
  handle_run-Few s (d ∷ d' ∷ ds) h = elim (Option-cases (env.process_all s.history (d ∷ d' ∷ ds))) [
    | inr (e, no_luck) ↦ ground arith
    | inl taken ↦ rw (taken, handle_run) (continuations-Few _ (omega arith))
  ]

  handle_batch-Few :
      (s : Sequencer Block Log Err) (ds : List (BlockData Block Log Err))
      → Few s
      → Few (handle_batch env s ds).0
  unfolding handle_batch pause_if_high
  handle_batch-Few s ds h =
      let c = classify env s.expected_block ds in
      after_block-Few _ (λ t. handle_all env t c.single_blocks)
        (λ t k. handle_all-Few t c.single_blocks k)
        (after_block-Few _ (λ t. handle_all env t c.remaining)
          (λ t k. handle_all-Few t c.remaining k)
          (handle_run-Few (pause_if_high env s) c.sequential_batch h))

  run_step-Few :
      (s : Sequencer Block Log Err) (g : Signal Block Log Err) → Few s → Few (run_step env s g).0
  unfolding run_step drain_buffer stall_tick handle_stall
  run_step-Few s context_ends h = continuations-Few s h
  run_step-Few s stall_timer h = ground arith
  run_step-Few s pulse_timer h = h
  run_step-Few s channel_closed h = continuations-Few s h
  run_step-Few s (receives first later) h = handle_batch-Few s (collect_batch env first later) h

  continue_with-Few :
      (next : Sequencer Block Log Err → Sequencer Block Log Err × Loop Err)
      (p : Sequencer Block Log Err × Loop Err)
      → ((t : Sequencer Block Log Err) → Few t → Few (next t).0)
      → Few p.0
      → Few (continue_with env next p).0
  unfolding continue_with
  continue_with-Few next (s, continues) keep h = keep s h
  continue_with-Few next (s, r) keep h = h

  run-Few :
      (s : Sequencer Block Log Err) (gs : List (Signal Block Log Err))
      → Few s
      → Few (run env s gs).0
  unfolding run
  run-Few s [] h = h
  run-Few s (g ∷ gs) h =
      continue_with-Few (λ t. run env t gs) (run_step env s g) (λ t k. run-Few t gs k)
        (run_step-Few s g h)

  -- Whatever arrives, and whatever the processor, the RPC client and the clock answer, a gap is
  -- refetched three times at most before it is bypassed: the count never passes three.
  pub run-gap_fill_count :
      (fetcher : Option Fetcher) (has_reorg_ch : Bool) (start_block chain_id : ℕ)
      (signals : List (Signal Block Log Err))
      → let s = new_sequencer env fetcher has_reorg_ch start_block chain_id in
        (run env s signals).0.gap_fill_count ≤ 3
  unfolding new_sequencer
  run-gap_fill_count fetcher has_reorg_ch start_block chain_id signals =
      run-Few _ signals (omega arith)
