-- ===== src/Sequencer/Process/Drain.antt =====
-- The drain of the buffer: it hands the longest run of buffered blocks to the processor, in order.
use web3_indexer_go.Base.{
  ℕ, zero, suc, ◌+◌, ◌-◌, ◌≤◌, ◌<◌, ◌≡◌, ◌≢◌, refl, sym, ap, subst, ◌∙◌, inl, inr, true, ◌&&◌, List,
  ◌∷◌, Option, none, some, arith, ltb, leb, if◌then◌else◌, is_some, length, Option-cases, not,
  false,
}
use web3_indexer_go.Sequencer.Buffer.{lookup, delete, insert}
use web3_indexer_go.Sequencer.Buffer.Lookup.{lookup-delete, lookup-insert}
use web3_indexer_go.Sequencer.Buffer.Size.{length-delete-lt, length-insert-le}
use web3_indexer_go.Sequencer.State.{
  BlockData, Outcome, processed, reorg, rejected, process_block, History, Env, Sequencer, Error,
  done, failed, log,
}
use web3_indexer_go.Sequencer.Process.{advance, process_sequential, next_round, drain_loop}
use web3_indexer_go.Sequencer.Process.Step.{
  process_sequential-processed, process_sequential-rejected,
}

module _ {Block Log Err : Type 0} where
  abbrev pub accept :
      Option (BlockData Block Log Err) → History Block Log Err → History Block Log Err
  accept none h = h
  accept (some d) h = process_block d processed ∷ h

  -- The history after the buffered blocks `n`, …, `n + k - 1` are processed in this order.
  abbrev pub process_run :
      List (ℕ × BlockData Block Log Err) → ℕ → ℕ → History Block Log Err → History Block Log Err
  process_run m n zero h = h
  process_run m n (suc k) h = process_run m (n + 1) k (accept (lookup n m) h)

  process_run-delete :
      (m : List (ℕ × BlockData Block Log Err)) (i n k : ℕ) (h : History Block Log Err)
      → i < n
      → process_run (delete i m) n k h ≡ process_run m n k h
  process_run-delete m i n zero h lt = refl
  process_run-delete m i n (suc k) h lt =
      let same : lookup n (delete i m) ≡ lookup n m = ground (arith, lookup-delete i n m) in
      rw same (process_run-delete m i (n + 1) k (accept (lookup n m) h) (omega arith))

  -- One block less to run from a buffer that the first block was taken out of.
  process_run-cons :
      (m : List (ℕ × BlockData Block Log Err)) (d : BlockData Block Log Err) (n e : ℕ)
      (h : History Block Log Err)
      → lookup n m ≡ some d
      → n < e
      → process_run (delete n m) (n + 1) (e - (n + 1)) (process_block d processed ∷ h)
        ≡ process_run m n (e - n) h
  process_run-cons m d n e h found lt =
      let less : e - n ≡ suc (e - (n + 1)) = omega arith in
      rw less (
        process_run-delete m n (n + 1) (e - (n + 1)) (process_block d processed ∷ h) (omega arith)
        ∙ sym (ap (λ o. process_run m (n + 1) (e - (n + 1)) (accept o h)) found))

  process_run_self :
      (m : List (ℕ × BlockData Block Log Err)) (n : ℕ) (h : History Block Log Err)
      → process_run m n (n - n) h ≡ h
  process_run_self m n h = let empty : n - n ≡ 0 = omega arith in rw empty refl

data Taken {Err : Type 0} (o : Outcome Err) : Type 0 where
  was_processed : o ≡ processed → Taken o
  was_reorg : o ≡ reorg → Taken o
  was_rejected : (e : Err) → o ≡ rejected e → Taken o

Outcome-cases : {Err : Type 0} (o : Outcome Err) → Taken o
Outcome-cases processed = was_processed refl
Outcome-cases reorg = was_reorg refl
Outcome-cases (rejected e) = was_rejected e refl

module _ {Block Log Err : Type 0} (env : Env Block Log Err) where
  -- Why a drain that took `s` to `t` ended, given the history `h` of the blocks it processed: the
  -- next block is not buffered, or the processor rejected it and it stays in the buffer.
  pub data Ended (t : Sequencer Block Log Err) (h : History Block Log Err) : Type 0 where
    missing : lookup t.expected_block t.buffer ≡ none → t.history ≡ h → Ended t h
    held :
        (d : BlockData Block Log Err) (e : Err)
        → lookup t.expected_block t.buffer ≡ some d
        → env.process h d ≡ rejected e
        → t.history ≡ process_block d (rejected e) ∷ h
        → Ended t h

  -- What a drain without a reorg does: from `expected_block` on it processes buffered blocks,
  -- consecutive and in order, takes them out of the buffer and leaves all other entries.
  pub record Drained (s t : Sequencer Block Log Err) : Type 0 where
    pub advances : s.expected_block ≤ t.expected_block
    pub buffered :
        (k : ℕ)
        → lookup k t.buffer
          ≡ (if leb s.expected_block k && ltb k t.expected_block then none else lookup k s.buffer)
    pub available :
        (k : ℕ) → s.expected_block ≤ k → k < t.expected_block → is_some (lookup k s.buffer) ≡ true
    pub ended :
        Ended t
          (process_run s.buffer s.expected_block (t.expected_block - s.expected_block) s.history)
    pub smaller : length t.buffer + (t.expected_block - s.expected_block) ≤ length s.buffer
    pub same_chain : t.chain_id ≡ s.chain_id

  -- No block of the run was missing in the buffer.
  pub Drained-available :
      (s t : Sequencer Block Log Err)
      → Drained s t
      → (k : ℕ)
      → (leb s.expected_block k && ltb k t.expected_block && not (is_some (lookup k s.buffer)))
        ≡ false
  Drained-available s t r k = ground (arith, r.available k)

  Drained-stop :
      (s : Sequencer Block Log Err) → lookup s.expected_block s.buffer ≡ none → Drained s s
  Drained-stop s h = record {
    advances = omega arith;
    buffered = λ k. ground arith;
    available = λ k a b. absurd (omega arith);
    ended = missing h (sym (process_run_self s.buffer s.expected_block s.history));
    smaller = omega arith;
    same_chain = refl;
  }

  module _ (s : Sequencer Block Log Err) (d : BlockData Block Log Err)
      (found : lookup s.expected_block s.buffer ≡ some d) where
    abbrev without : Sequencer Block Log Err
    without = record s { buffer = delete s.expected_block s.buffer }

    abbrev taken : Sequencer Block Log Err
    taken = log without (process_block d processed)

    Drained-hold :
        (e : Err)
        → env.process s.history d ≡ rejected e
        → Drained s (record (log without (process_block d (rejected e))) {
          buffer = insert s.expected_block d (delete s.expected_block s.buffer);
        })
    Drained-hold e h = record {
      advances = omega arith;
      buffered = λ k. ground (
        arith,
        found,
        lookup-insert s.expected_block k d (delete s.expected_block s.buffer),
        lookup-delete s.expected_block k s.buffer,
      );
      available = λ k a b. absurd (omega arith);
      ended = rw (process_run_self s.buffer s.expected_block s.history) (
          held d e
            (ground (
              arith,
              lookup-insert s.expected_block s.expected_block d (delete s.expected_block s.buffer),
            ))
            h refl);
      smaller = omega (
        arith,
        length-insert-le s.expected_block d (delete s.expected_block s.buffer),
        length-delete-lt s.expected_block d s.buffer found,
      );
      same_chain = refl;
    }

    Drained-step : (t : Sequencer Block Log Err) → Drained (advance env taken) t → Drained s t
    unfolding advance
    Drained-step t r = record {
      advances = omega (arith, r.advances);
      buffered =
          λ k. ground (arith, r.buffered k, r.advances, lookup-delete s.expected_block k s.buffer);
      available = λ k a b. ground (arith, r.available k, lookup-delete s.expected_block k s.buffer);
      ended =
          subst (Ended t)
            (process_run-cons s.buffer d s.expected_block t.expected_block s.history found
              (omega (arith, r.advances)))
            r.ended;
      smaller = omega (arith, r.smaller, length-delete-lt s.expected_block d s.buffer found);
      same_chain = r.same_chain;
    }

  module _ (s : Sequencer Block Log Err) (fuel : ℕ) where
    pub drain_loop-missing :
        lookup s.expected_block s.buffer ≡ none → drain_loop env (suc fuel) s ≡ (s, done)
    unfolding drain_loop
    drain_loop-missing gone = rw (gone, drain_loop)

    pub drain_loop-processed :
        (d : BlockData Block Log Err) (found : lookup s.expected_block s.buffer ≡ some d)
        → env.process s.history d ≡ processed
        → drain_loop env (suc fuel) s ≡ drain_loop env fuel (advance env (taken s d found))
    unfolding drain_loop
    drain_loop-processed d found h =
        rw (found, drain_loop)
          (ap (next_round env (drain_loop env fuel) s.expected_block d)
            (process_sequential-processed env (without s d found) d h))

    pub drain_loop-failed :
        (d : BlockData Block Log Err) (found : lookup s.expected_block s.buffer ≡ some d)
        (t : Sequencer Block Log Err) (e : Error Err)
        → process_sequential env (without s d found) d ≡ (t, failed e)
        → drain_loop env (suc fuel) s
          ≡ (record t { buffer = insert s.expected_block d t.buffer }, done)
    unfolding drain_loop
    drain_loop-failed d found t e h =
        rw (found, drain_loop) (ap (next_round env (drain_loop env fuel) s.expected_block d) h)

  length-taken :
      (s : Sequencer Block Log Err) (d : BlockData Block Log Err)
      (found : lookup s.expected_block s.buffer ≡ some d)
      → length (advance env (taken s d found)).buffer < length s.buffer
  unfolding advance
  length-taken s d found = length-delete-lt s.expected_block d s.buffer found

  -- With more fuel than the buffer has entries the loop ends, and what it did is `Drained`.
  pub drain_loop-Drained :
      ((h : History Block Log Err) (d : BlockData Block Log Err) → env.process h d ≢ reorg)
      → (fuel : ℕ) (s : Sequencer Block Log Err) → length s.buffer < fuel
      → ((drain_loop env fuel s).1 ≡ done) × Drained s (drain_loop env fuel s).0
  drain_loop-Drained calm zero s lt = absurd (omega arith)
  drain_loop-Drained calm (suc fuel) s lt = elim (Option-cases (lookup s.expected_block s.buffer)) [
    | inl gone ↦ rw (drain_loop-missing s fuel gone) (refl, Drained-stop s gone)
    | inr (d, found) ↦ elim (Outcome-cases (env.process s.history d)) [
      | Taken.was_processed p ↦ rw (drain_loop-processed s fuel d found p) (
          let (ok, r) =
            drain_loop-Drained calm fuel (advance env (taken s d found))
              (omega (arith, length-taken s d found)) in
          (ok, Drained-step s d found _ r))
      | Taken.was_reorg p ↦ absurd (calm s.history d p)
      | Taken.was_rejected e p ↦
          rw
            (drain_loop-failed s fuel d found _ _
              (process_sequential-rejected env (without s d found) d e p))
            (refl, Drained-hold s d found e p)
    ]
  ]
