-- ===== src/Sequencer/Handle/Order.antt =====
-- Blocks that arrive in any order are processed in the order of their numbers.
use mathlib.Core.Path.{subst₂}
use web3_indexer_go.Base.{
  ℕ, zero, suc, ◌+◌, ◌-◌, ◌≤◌, ◌<◌, ◌≡◌, refl, sym, ap, subst, Bool, true, false, ◌||◌, Bool-cases,
  ltb→lt, ==→eq, Option-cases, inl, inr, none, some, arith, length, ◌==◌, ltb, List, [], ◌∷◌,
  is_some,
}
use web3_indexer_go.Sequencer.Buffer.{lookup, insert}
use web3_indexer_go.Sequencer.Buffer.Lookup.{lookup-insert}
use web3_indexer_go.Sequencer.Buffer.Size.{length-insert-le}
use web3_indexer_go.Sequencer.State.{
  BlockData, processed, process_block, History, Env, Sequencer, Result, done, log,
}
use web3_indexer_go.Sequencer.Process.{advance}
use web3_indexer_go.Sequencer.Process.Drain.{Drained, Ended, missing, held, process_run, accept}
use web3_indexer_go.Sequencer.Process.Continue.{continuations-Drained}
use web3_indexer_go.Sequencer.Handle.{buffer_limit, place, handle_block}
use web3_indexer_go.Sequencer.Handle.Place.{
  block_number, Fetched, handle_block-Fetched, place-lt, place-eq, place-gt,
}

module _ {Block Log Err : Type 0} (env : Env Block Log Err) where
  -- Whether the data holds block `k`.
  abbrev pub holds : ℕ → BlockData Block Log Err → Bool
  holds k d = elim (block_number env d) [ none ↦ false | some n ↦ n == k ]

  abbrev pub arrived : ℕ → List (BlockData Block Log Err) → Bool
  arrived k [] = false
  arrived k (d ∷ ds) = holds k d || arrived k ds

  -- The history `h` is `h₀` and then the blocks `start`, …, `n - 1`, each processed once, in order.
  pub data InOrder (start : ℕ) (h₀ : History Block Log Err)
      : ℕ → History Block Log Err → Type 0 where
    begin : {n : ℕ} {h : History Block Log Err} → n ≡ start → h ≡ h₀ → InOrder start h₀ n h
    next :
        {n : ℕ} {h : History Block Log Err} (m : ℕ) (d : BlockData Block Log Err)
        (h' : History Block Log Err)
        → InOrder start h₀ m h'
        → Fetched env m d
        → n ≡ m + 1
        → h ≡ process_block d processed ∷ h'
        → InOrder start h₀ n h

  InOrder-run :
      (start : ℕ) (h₀ : History Block Log Err) (m : List (ℕ × BlockData Block Log Err)) (j n : ℕ)
      (h : History Block Log Err)
      → ((k : ℕ) (d : BlockData Block Log Err) → lookup k m ≡ some d → Fetched env k d)
      → ((k : ℕ) → n ≤ k → k < n + j → is_some (lookup k m) ≡ true)
      → InOrder start h₀ n h
      → InOrder start h₀ (n + j) (process_run m n j h)
  InOrder-run start h₀ m zero n h kept there o = let same : n + zero ≡ n = omega arith in rw same o
  InOrder-run start h₀ m (suc j) n h kept there o = elim (Option-cases (lookup n m)) [
    | inl gone ↦ absurd (ground (arith, there n, gone))
    | inr (d, found) ↦
        let same : n + suc j ≡ n + 1 + j = omega arith in
        rw same (
          InOrder-run start h₀ m j (n + 1) (accept (lookup n m) h) kept
            (λ k a b. there k (omega arith) (omega arith))
            (next n d h o (kept n d found) refl (ap (λ q. accept q h) found)))
  ]

  -- Started at `start` with history `h₀`, the blocks with `seen` have arrived.
  pub record Tracks (start : ℕ) (h₀ : History Block Log Err) (seen : ℕ → Bool)
      (s : Sequencer Block Log Err) : Type 0 where
    pub from : start ≤ s.expected_block
    pub kept : (k : ℕ) (d : BlockData Block Log Err) → lookup k s.buffer ≡ some d → Fetched env k d
    pub present : (k : ℕ) → start ≤ k → k < s.expected_block → seen k ≡ true
    pub waits : (k : ℕ) → s.expected_block ≤ k → is_some (lookup k s.buffer) ≡ seen k
    pub gap : lookup s.expected_block s.buffer ≡ none
    pub ordered : InOrder start h₀ s.expected_block s.history

  module _
      (accepts : (h : History Block Log Err) (d : BlockData Block Log Err)
        → env.process h d ≡ processed)
      (start : ℕ) (h₀ : History Block Log Err) (seen : ℕ → Bool) (s : Sequencer Block Log Err)
      (v : Tracks start h₀ seen s) (d : BlockData Block Log Err) (n : ℕ) (f : Fetched env n d) where
    Ended-accepted :
        (t : Sequencer Block Log Err) (h : History Block Log Err)
        → Ended env t h
        → (lookup t.expected_block t.buffer ≡ none) × (t.history ≡ h)
    Ended-accepted t h (missing a b) = (a, b)
    Ended-accepted t h (held d' e a p c) = absurd (ground (arith, accepts h d'))

    abbrev pub seen' : ℕ → Bool
    seen' k = holds k d || seen k

    Tracks-early : n < s.expected_block → Tracks start h₀ seen' s
    Tracks-early lt = record {
      from = v.from;
      kept = v.kept;
      present = λ k a b. ground (arith, v.present k);
      waits = λ k a. ground (arith, v.waits k);
      gap = v.gap;
      ordered = v.ordered;
    }

    Tracks-late :
        s.expected_block < n → Tracks start h₀ seen' (record s { buffer = insert n d s.buffer })
    Tracks-late lt = record {
      from = v.from;
      kept = λ k d' e. elim (Bool-cases (n == k)) [
        | inl same ↦
            let at : n ≡ k = ground arith in
            let it : d ≡ d' = ground (arith, lookup-insert n k d s.buffer) in
            subst (λ q. Fetched env k q) it (subst (λ q. Fetched env q d) at f)
        | inr other ↦ v.kept k d' (ground (arith, lookup-insert n k d s.buffer))
      ];
      present = λ k a b. ground (arith, v.present k);
      waits = λ k a. ground (arith, v.waits k, lookup-insert n k d s.buffer);
      gap = ground (arith, v.gap, lookup-insert n s.expected_block d s.buffer);
      ordered = v.ordered;
    }

    abbrev after_this : Sequencer Block Log Err
    after_this = advance env (log s (process_block d processed))

    Tracks-now :
        (t : Sequencer Block Log Err)
        → n ≡ s.expected_block
        → Drained env after_this t
        → Tracks start h₀ seen' t
    unfolding advance
    Tracks-now t here r = record {
      from = omega (arith, v.from, r.advances);
      kept = λ k d' e. v.kept k d' (ground (arith, r.buffered k));
      present = λ k a b. elim (Bool-cases (ltb k s.expected_block)) [
        | inl old ↦ ground (arith, v.present k)
        | inr new ↦ elim (Bool-cases (n == k)) [
          | inl same ↦ ground arith
          | inr other ↦ ground (arith, r.available k, v.waits k)
        ]
      ];
      waits = λ k a. ground (arith, v.waits k, r.buffered k, r.advances);
      gap = (Ended-accepted t _ r.ended).0;
      ordered =
          subst₂ (InOrder start h₀) (omega (arith, r.advances)) (sym (Ended-accepted t _ r.ended).1)
            (InOrder-run start h₀ s.buffer (t.expected_block - (s.expected_block + 1))
              (s.expected_block + 1) (process_block d processed ∷ s.history) v.kept
              (λ k a b. ground (arith, r.available k))
              (next s.expected_block d s.history v.ordered (subst (λ q. Fetched env q d) here f)
                refl refl));
    }

    -- One more block keeps track, while the buffer has room for it.
    pub record Tracked (p : Sequencer Block Log Err × Result Err) : Type 0 where
      pub ends : p.1 ≡ done
      pub tracks : Tracks start h₀ seen' p.0
      pub grows : length p.0.buffer ≤ length s.buffer + 1
      pub chain : p.0.chain_id ≡ s.chain_id

    Tracked-now : n ≡ s.expected_block → Tracked (place env s d n)
    unfolding advance
    Tracked-now here =
        subst (λ q. Tracked (place env s d q)) (sym here)
          (rw (place-eq env s d (accepts s.history d)) (
            let (ok, r) =
              continuations-Drained env after_this (λ h d' e. ground (arith, accepts h d')) in
            record {
              ends = ok;
              tracks = Tracks-now _ here r;
              grows = omega (arith, r.smaller);
              chain = r.same_chain;
            }))

    pub handle_block-Tracked :
        length s.buffer < buffer_limit s.chain_id → Tracked (handle_block env s d)
    handle_block-Tracked room =
        rw (handle_block-Fetched env s n d f) (elim (Bool-cases (ltb n s.expected_block)) [
          | inl early ↦ rw (place-lt env s d n (ltb→lt _ _ early)) (record {
            ends = refl;
            tracks = Tracks-early (ltb→lt _ _ early);
            grows = omega arith;
            chain = refl;
          })
          | inr rest ↦ elim (Bool-cases (n == s.expected_block)) [
            | inl here ↦ Tracked-now (==→eq _ _ here)
            | inr other ↦
                rw
                  (place-gt env s d n (ground arith) (omega (arith, length-insert-le n d s.buffer)))
                  (record {
                    ends = refl;
                    tracks = Tracks-late (ground arith);
                    grows = length-insert-le n d s.buffer;
                    chain = refl;
                  })
          ]
        ])
