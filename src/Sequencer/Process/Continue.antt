-- ===== src/Sequencer/Process/Continue.antt =====
-- `processBufferContinuationsLocked`: the drain, and the fetcher that is woken after it.
use web3_indexer_go.Base.{
  inl, inr, Bool-cases, ℕ, suc, ◌<◌, ◌≡◌, ◌≢◌, refl, ap, ◌∙◌, Option, some, arith, length,
}
use mathlib.Core.Option
use web3_indexer_go.Fetcher.{Fetcher, pause, resume}
use web3_indexer_go.Sequencer.Buffer.{lookup, delete}
use web3_indexer_go.Sequencer.Buffer.Lookup.{lookup-insert}
use web3_indexer_go.Sequencer.Buffer.Size.{length-below-le, length-delete-lt, length-insert-le}
use web3_indexer_go.Sequencer.State.{
  BlockData, reorg, process_block, History, Env, Sequencer, Result, done, failed, panicked,
  out_of_fuel, Error, reorg_need_refetch, context_done, log,
}
use web3_indexer_go.Sequencer.Process.{
  drain_loop, resume_if_low, finish_drain, process_buffer_continuations, handle_reorg, notify_reorg,
  rollback, woken,
}
use web3_indexer_go.Sequencer.Process.Step.{process_sequential-reorg}
use web3_indexer_go.Sequencer.Process.Drain.{
  Drained, missing, held, drain_loop-Drained, drain_loop-failed,
}

woken-resume :
    (n : ℕ) (f : Fetcher) (g : Option Fetcher)
    → n < 200
    → g ≡ some (pause f)
    → woken n g ≡ some (resume f)
unfolding woken pause
woken-resume n f g small h = rw h (ground arith)

module _ {Block Log Err : Type 0} (env : Env Block Log Err) where
  resume_if_low-Drained :
      (s t : Sequencer Block Log Err) → Drained env s t → Drained env s (resume_if_low env t)
  unfolding resume_if_low
  resume_if_low-Drained s t r = record {
    advances = r.advances;
    buffered = r.buffered;
    available = r.available;
    ended = elim r.ended [ missing a b ↦ missing a b | held d e a b c ↦ held d e a b c ];
    smaller = r.smaller;
    same_chain = r.same_chain;
  }

  finish_drain-done :
      (p : Sequencer Block Log Err × Result Err)
      → p.1 ≡ done
      → finish_drain env p ≡ (resume_if_low env p.0, done)
  unfolding finish_drain
  finish_drain-done (t, done) h = refl
  finish_drain-done (t, failed e) h = absurd (ground arith)
  finish_drain-done (t, panicked) h = absurd (ground arith)
  finish_drain-done (t, out_of_fuel) h = absurd (ground arith)

  pub continuations-Drained :
      (s : Sequencer Block Log Err)
      → ((h : History Block Log Err) (d : BlockData Block Log Err) → env.process h d ≢ reorg)
      → ((process_buffer_continuations env s).1 ≡ done)
        × Drained env s (process_buffer_continuations env s).0
  unfolding process_buffer_continuations
  continuations-Drained s calm =
      let (ended, r) = drain_loop-Drained env calm (suc (length s.buffer)) s (omega arith) in
      rw (finish_drain-done (drain_loop env (suc (length s.buffer)) s) ended)
        (refl, resume_if_low-Drained s _ r)

  -- A reorg notice ends in an error and leaves the cursor, the buffer and the fetcher.
  pub record Notified (s t : Sequencer Block Log Err) (r : Result Err) : Type 0 where
    pub error : Error Err
    pub fails : r ≡ failed error
    pub same_expected : t.expected_block ≡ s.expected_block
    pub same_buffer : t.buffer ≡ s.buffer
    pub same_fetcher : t.fetcher ≡ s.fetcher

  pub notify_reorg-Notified :
      (s : Sequencer Block Log Err) (n : ℕ)
      → Notified s (notify_reorg env s n).0 (notify_reorg env s n).1
  unfolding notify_reorg
  notify_reorg-Notified s n = elim (Bool-cases s.has_reorg_ch) [
    | inr off ↦ record {
      error = reorg_need_refetch;
      fails = ground arith;
      same_expected = ground arith;
      same_buffer = ground arith;
      same_fetcher = ground arith;
    }
    | inl on ↦ elim (Bool-cases (env.reorg_sent s.history)) [
      | inl sent ↦ record {
        error = reorg_need_refetch;
        fails = ground arith;
        same_expected = ground arith;
        same_buffer = ground arith;
        same_fetcher = ground arith;
      }
      | inr over ↦ record {
        error = context_done;
        fails = ground arith;
        same_expected = ground arith;
        same_buffer = ground arith;
        same_fetcher = ground arith;
      }
    ]
  ]

  handle_reorg-some :
      (s : Sequencer Block Log Err) (d : BlockData Block Log Err) (b : Block)
      → d.block ≡ some b
      → handle_reorg env s d ≡ notify_reorg env (rollback env s (env.number_of b)) (env.number_of b)
  unfolding handle_reorg
  handle_reorg-some s d b h = rw (h, handle_reorg) refl

  -- A reorg that the processor reports on a buffered block below 200 buffered blocks: the cursor goes
  -- to that block and no error is returned; but the stale block is back in the buffer, and the
  -- fetcher, which the rollback paused, runs.
  pub continuations-reorg :
      (s : Sequencer Block Log Err) (d : BlockData Block Log Err) (b : Block) (f : Fetcher)
      → lookup s.expected_block s.buffer ≡ some d
      → d.block ≡ some b
      → env.process s.history d ≡ reorg
      → length s.buffer < 200
      → s.fetcher ≡ some f
      → let (t, r) = process_buffer_continuations env s in
        (r ≡ done)
        × (lookup s.expected_block t.buffer ≡ some d)
        × (t.expected_block ≡ env.number_of b)
        × (t.fetcher ≡ some (resume f))
  unfolding process_buffer_continuations finish_drain resume_if_low rollback
  continuations-reorg s d b f found block p small has =
      rw
        (drain_loop-failed env s (length s.buffer) d found m.0 v.error (
          process_sequential-reorg env without d p ∙ handle_reorg-some _ d b block ∙ λ i.
          (m.0, v.fails i)))
        (
          refl,
          ground (arith, lookup-insert s.expected_block s.expected_block d m.0.buffer),
          v.same_expected,
          woken-resume _ f _
              (omega (
                arith,
                length-insert-le s.expected_block d m.0.buffer,
                ap length v.same_buffer,
                length-below-le n (delete s.expected_block s.buffer),
                length-delete-lt s.expected_block d s.buffer found,
              ))
              (v.same_fetcher ∙ ap (Option.map pause) has),
        )
    where
      n : ℕ
      n = env.number_of b

      without : Sequencer Block Log Err
      without = record s { buffer = delete s.expected_block s.buffer }

      m : Sequencer Block Log Err × Result Err
      m = notify_reorg env (rollback env (log without (process_block d reorg)) n) n

      v : Notified (rollback env (log without (process_block d reorg)) n) m.0 m.1
      v = notify_reorg-Notified (rollback env (log without (process_block d reorg)) n) n
