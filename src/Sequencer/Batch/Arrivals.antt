-- ===== src/Sequencer/Batch/Arrivals.antt =====
-- A whole sequence of arrivals: which blocks are processed does not depend on their order.

use web3_indexer_go.Base.{
  ℕ, ◌+◌, ◌≤◌, ◌<◌, ◌≡◌, refl, Bool, true, false, ◌||◌, ltb, arith, length, List, [], ◌∷◌, All,
  is_some,
}
use web3_indexer_go.Sequencer.Buffer.{lookup}
use web3_indexer_go.Sequencer.State.{BlockData, processed, History, Env, Sequencer, Result, done}
use web3_indexer_go.Sequencer.Handle.{buffer_limit, handle_block, after_block}
use web3_indexer_go.Sequencer.Handle.Place.{Fetched}
use web3_indexer_go.Sequencer.Handle.Order.{
  holds, arrived, InOrder, begin, Tracks, handle_block-Tracked,
}
use web3_indexer_go.Sequencer.Batch.{handle_all}

module _ {Block Log Err : Type 0} (env : Env Block Log Err) where
  abbrev seen_after : (ℕ → Bool) → List (BlockData Block Log Err) → ℕ → Bool
  seen_after seen [] k = seen k
  seen_after seen (d ∷ ds) k = seen_after (λ j. holds env j d || seen j) ds k

  seen_after-arrived :
      (seen : ℕ → Bool) (ds : List (BlockData Block Log Err)) (k : ℕ)
      → seen_after seen ds k ≡ (arrived env k ds || seen k)
  seen_after-arrived seen [] k = refl
  seen_after-arrived seen (d ∷ ds) k =
      ground (arith, seen_after-arrived (λ j. holds env j d || seen j) ds k)

  after_block-done :
      (p : Sequencer Block Log Err × Result Err)
      (k : Sequencer Block Log Err → Sequencer Block Log Err × Result Err)
      → p.1 ≡ done
      → after_block env p k ≡ k p.0
  unfolding after_block
  after_block-done p k h = ground arith

  abbrev pub IsFetched : BlockData Block Log Err → Type 0
  IsFetched d = (n : ℕ) × Fetched env n d

  Tracks-empty :
      (s : Sequencer Block Log Err)
      → s.buffer ≡ []
      → Tracks env s.expected_block s.history (λ k. false) s
  unfolding lookup
  Tracks-empty s e = record {
    from = omega arith;
    kept = λ k d found. absurd (ground arith);
    present = λ k a b. absurd (omega arith);
    waits = λ k a. rw e refl;
    gap = rw e refl;
    ordered = begin refl refl;
  }

  module _
      (accepts : (h : History Block Log Err) (d : BlockData Block Log Err)
        → env.process h d ≡ processed)
      (start : ℕ) (h₀ : History Block Log Err) where
    handle_all-Tracks :
        (seen : ℕ → Bool) (s : Sequencer Block Log Err) (ds : List (BlockData Block Log Err))
        → Tracks env start h₀ seen s
        → All IsFetched ds
        → length s.buffer + length ds ≤ buffer_limit s.chain_id
        → ((handle_all env s ds).1 ≡ done)
          × Tracks env start h₀ (seen_after seen ds) (handle_all env s ds).0
    unfolding handle_all
    handle_all-Tracks seen s [] v fs room = (refl, v)
    handle_all-Tracks seen s (d ∷ ds) v fs room =
        let w = handle_block-Tracked env accepts start h₀ seen s v d fs.0.0 fs.0.1 (omega arith) in
        rw (after_block-done (handle_block env s d) (λ t. handle_all env t ds) w.ends) (
          handle_all-Tracks (λ j. holds env j d || seen j) (handle_block env s d).0 ds w.tracks fs.1
            (rw w.chain (omega (arith, w.grows))))

  module _
      (accepts : (h : History Block Log Err) (d : BlockData Block Log Err)
        → env.process h d ≡ processed)
      (s : Sequencer Block Log Err) (empty : s.buffer ≡ []) (ds : List (BlockData Block Log Err))
      (fetched : All IsFetched ds) (room : length ds ≤ buffer_limit s.chain_id) where
    arrivals :
        ((handle_all env s ds).1 ≡ done)
        × Tracks env s.expected_block s.history (seen_after (λ k. false) ds) (handle_all env s ds).0
    arrivals =
        handle_all-Tracks accepts s.expected_block s.history (λ k. false) s ds
          (Tracks-empty s empty) fetched (rw empty (omega arith))

    -- Fetched blocks arrive one by one, in any order, at a sequencer with an empty buffer and a
    -- processor that accepts every block; they are no more than the buffer may hold. Then no error
    -- is returned; the calls of the processor are the blocks from `expected_block` on, each once, in
    -- ascending order, up to the new `expected_block`, which has not arrived; and of the blocks from
    -- the old `expected_block` on, those that arrived are those processed or still buffered.
    pub handle_all-InOrder :
        (k : ℕ)
        → s.expected_block ≤ k
        → let (t, r) = handle_all env s ds in
          (r ≡ done)
          × InOrder env s.expected_block s.history t.expected_block t.history
          × (arrived env t.expected_block ds ≡ false)
          × (arrived env k ds ≡ (ltb k t.expected_block || is_some (lookup k t.buffer)))
    handle_all-InOrder k le =
        let (ok, v) = arrivals in
        (
          ok,
          v.ordered,
          ground (
            arith,
            v.gap,
            v.waits (handle_all env s ds).0.expected_block,
            seen_after-arrived (λ j. false) ds (handle_all env s ds).0.expected_block,
          ),
          ground (arith, v.present k, v.waits k, seen_after-arrived (λ j. false) ds k),
        )

    pub missing_first :
        let t = (handle_all env s ds).0 in
        (s.expected_block ≤ t.expected_block) × (arrived env t.expected_block ds ≡ false)
    missing_first =
        let (ok, v) = arrivals in
        (v.from, (handle_all-InOrder (handle_all env s ds).0.expected_block v.from).2)

    pub arrived_before :
        (k : ℕ)
        → s.expected_block ≤ k
        → k < (handle_all env s ds).0.expected_block
        → arrived env k ds ≡ true
    arrived_before k a b = ground (arith, (handle_all-InOrder k a).3)

  -- With an accepting processor and an empty buffer, two sequences of fetched blocks, each within
  -- the buffer's limit, that bring the same blocks move `expected_block` to the same height.
  pub handle_all-order_irrelevant :
      ((h : History Block Log Err) (d : BlockData Block Log Err) → env.process h d ≡ processed)
      → (s : Sequencer Block Log Err) → s.buffer ≡ []
      → (ds es : List (BlockData Block Log Err)) → All IsFetched ds
      → All IsFetched es
      → length ds ≤ buffer_limit s.chain_id
      → length es ≤ buffer_limit s.chain_id
      → ((k : ℕ) → arrived env k ds ≡ arrived env k es)
      → (handle_all env s ds).0.expected_block ≡ (handle_all env s es).0.expected_block
  handle_all-order_irrelevant accepts s empty ds es fd fe rd re same = ground (
    arith,
    missing_first accepts s empty ds fd rd,
    missing_first accepts s empty es fe re,
    arrived_before accepts s empty ds fd rd (handle_all env s es).0.expected_block,
    arrived_before accepts s empty es fe re (handle_all env s ds).0.expected_block,
    same (handle_all env s es).0.expected_block,
    same (handle_all env s ds).0.expected_block,
  )
