-- ===== src/Pipeline.antt =====
-- From a job of the fetcher to the sequencer: internal/engine/fetcher_block.go and sequencer_batch.go
-- together, as the results channel joins them.
mod Tests
use Prim.Native.String.{String}
use web3_indexer_go.Base.{
  ℕ, zero, suc, ◌+◌, ◌-◌, ◌≤◌, ◌<◌, ◌≡◌, refl, sym, ap, ◌∙◌, subst, Bool, true, false, ◌&&◌, ◌||◌,
  List, [], ◌∷◌, ◌++◌, Option, none, some, inl, inr, ◌⊎◌, ltb, leb, length, arith, All,
  if◌then◌else◌, Bool-cases, is_some,
}
use web3_indexer_go.Sequencer.State.{BlockData, processed, History, Env, Sequencer, Result, done}
use web3_indexer_go.Sequencer.Handle.{buffer_limit}
use web3_indexer_go.Sequencer.Handle.Place.{Fetched}
use web3_indexer_go.Sequencer.Handle.Order.{arrived, InOrder}
use web3_indexer_go.Sequencer.Batch.{handle_all}
use web3_indexer_go.Sequencer.Batch.Arrivals.{
  IsFetched, handle_all-InOrder, missing_first, arrived_before,
}
use web3_indexer_go.Fetcher.Range.{
  World, Tried, got, Trace, fetch_success, notify_fetched, notify_fetch_progress, passes, logs_of,
  retry, send_result, outcome_of, fetch_block, go_on, report, report_loop, after_filter,
  fetch_range_with_logs,
}
use web3_indexer_go.Fetcher.Range.Results.{results, results-append, retry-results}

retry-first :
    (Block Log : Type 0) {A : Type 0} (call : ℕ → String ⊎ A) (waits : ℕ → Bool) (n : ℕ) (a : A)
    → call 0 ≡ inr a
    → retry {Block = Block} {Log = Log} call waits n 0 ≡ (fetch_success ∷ [], got a)
unfolding retry
retry-first Block Log call waits zero a h = ground (arith, h)
retry-first Block Log call waits (suc n) a h = ground (arith, h)

module _ {Block Log : Type 0} (env : Env Block Log String) (block_of : Log → ℕ)
    (w : World Block Log) (start end : ℕ) (logs : List Log) where
  -- The client brings each block of the range at once, each of them has logs, and every send goes
  -- through.
  pub record IsGood : Type 0 where
    pub brings : (n : ℕ) → (b : Block) × (w.block_by_number n 0 ≡ inr b) × (env.number_of b ≡ n)
    pub has_logs : (n : ℕ) → start ≤ n → n ≤ end → ltb 0 (length (logs_of block_of n logs)) ≡ true
    pub sends : (n : ℕ) → (passes (w.send n).throughput && (w.send n).delivered) ≡ true

  module _ (g : IsGood) where
    -- The block `n` is fetched, and its data are sent.
    abbrev data_of : ℕ → Block → BlockData Block Log String
    data_of n b = record {
      number = some n;
      range_end = some end;
      block = some b;
      err = none;
      logs = logs_of block_of n logs;
    }

    fetched_at :
        (n : ℕ) (b : Block)
        → w.block_by_number n 0 ≡ inr b
        → start ≤ n
        → n ≤ end
        → fetch_block block_of w end n (logs_of block_of n logs)
          ≡ (fetch_success ∷ [], some (data_of n b))
    unfolding fetch_block outcome_of
    fetched_at n b h l u =
        let fetch = retry-first Block Log (w.block_by_number n) (w.block_waits n) 4 b h in
        ground (arith, fetch, g.has_logs n l u)

    sent_at :
        (n : ℕ) (d : BlockData Block Log String) (rest : Trace Block Log)
        → results (report block_of w end n (fetch_success ∷ [], some d) rest) ≡ d ∷ results rest
    unfolding report go_on send_result
    sent_at n d rest = ground (arith, g.sends n)

    loop_next :
        (m n : ℕ) (b : Block)
        → w.block_by_number n 0 ≡ inr b
        → start ≤ n
        → n ≤ end
        → results (report_loop block_of w end logs (suc m) n)
          ≡ data_of n b ∷ results (report_loop block_of w end logs m (n + 1))
    unfolding report_loop
    loop_next m n b h l u =
        let rest = report_loop block_of w end logs m (n + 1) in
        ap (λ q. results (report block_of w end n q rest)) (fetched_at n b h l u)
        ∙ sent_at n (data_of n b) rest

    loop-IsFetched :
        (m n : ℕ)
        → start ≤ n
        → n + m ≤ end + 1
        → All (IsFetched env) (results (report_loop block_of w end logs m n))
    unfolding report_loop
    loop-IsFetched zero n l u = tt
    loop-IsFetched (suc m) n l u =
        let (b, h, e) = g.brings n in
        subst (All (IsFetched env)) (sym (loop_next m n b h l (omega arith)))
          ((n, (refl, ap some e)), loop-IsFetched m (n + 1) (omega arith) (omega arith))

    loop-arrived :
        (m n k : ℕ)
        → start ≤ n
        → n + m ≤ end + 1
        → arrived env k (results (report_loop block_of w end logs m n)) ≡ (leb n k && ltb k (n + m))
    unfolding report_loop
    loop-arrived zero n k l u = ground arith
    loop-arrived (suc m) n k l u =
        let (b, h, e) = g.brings n in
        ap (arrived env k) (loop_next m n b h l (omega arith))
        ∙ ground (arith, e, loop-arrived m (n + 1) k (omega arith) (omega arith))

    loop-length :
        (m n : ℕ)
        → start ≤ n
        → n + m ≤ end + 1
        → length (results (report_loop block_of w end logs m n)) ≡ m
    unfolding report_loop
    loop-length zero n l u = refl
    loop-length (suc m) n l u =
        let (b, h, e) = g.brings n in
        omega (
          arith,
          ap length (loop_next m n b h l (omega arith)),
          loop-length m (n + 1) (omega arith) (omega arith),
        )

    job_results :
        (retry {Block = Block} {Log = Log} w.filter_logs w.filter_waits 4 0).1 ≡ got logs
        → results (fetch_range_with_logs block_of w end start)
          ≡ results (report_loop block_of w end logs (end + 1 - start) start)
    unfolding fetch_range_with_logs
    job_results h =
        let ms = (retry {Block = Block} {Log = Log} w.filter_logs w.filter_waits 4 0).0 in
        let rest = report_loop block_of w end logs (end + 1 - start) start in
        subst (λ r. results (after_filter block_of w end start (ms, r)) ≡ results rest) (sym h)
          (results-append ms (notify_fetched end ∷ rest)
            ∙ ap (λ xs. xs ++ results rest) {y = []}
                (retry-results w.filter_logs w.filter_waits 4 0))

    -- A job runs through: its logs have come, the client brings each block of its range at once, each
    -- has logs, and every send goes through. A sequencer that expects the first block, with an empty
    -- buffer that can hold the range and a processor that accepts every block, takes the results
    -- without an error, has the processor called for each block of the range once and in order, and
    -- then expects the block after the range.
    pub handle_all-fetch_range :
        ((h : History Block Log String) (d : BlockData Block Log String)
          → env.process h d ≡ processed)
        → (s : Sequencer Block Log String)
        → (retry {Block = Block} {Log = Log} w.filter_logs w.filter_waits 4 0).1 ≡ got logs
        → s.buffer ≡ []
        → s.expected_block ≡ start
        → start ≤ end
        → end + 1 - start ≤ buffer_limit s.chain_id
        → let (t, r) = handle_all env s (results (fetch_range_with_logs block_of w end start)) in
          (r ≡ done)
          × (t.expected_block ≡ end + 1)
          × InOrder env s.expected_block s.history t.expected_block t.history
    handle_all-fetch_range accepts s f empty at le room =
        let ds = results (report_loop block_of w end logs (end + 1 - start) start) in
        let fetched = loop-IsFetched (end + 1 - start) start (omega arith) (omega arith) in
        let size = loop-length (end + 1 - start) start (omega arith) (omega arith) in
        let fits : length ds ≤ buffer_limit s.chain_id = omega arith in
        let k = (handle_all env s ds).0.expected_block in
        let (above, missing) = missing_first env accepts s empty ds fetched fits in
        let (ends, ordered, gap, rest) =
          handle_all-InOrder env accepts s empty ds fetched fits s.expected_block (omega arith) in
        let here = loop-arrived (end + 1 - start) start k (omega arith) (omega arith) in
        let beyond = loop-arrived (end + 1 - start) start (end + 1) (omega arith) (omega arith) in
        subst
          (λ xs.
            let (t, r) = handle_all env s xs in
            (r ≡ done)
            × (t.expected_block ≡ end + 1)
            × InOrder env s.expected_block s.history t.expected_block t.history)
          (sym (job_results f))
          (
            ends,
            ground (
              arith,
              at,
              le,
              above,
              missing,
              here,
              beyond,
              arrived_before env accepts s empty ds fetched fits (end + 1) (omega arith),
            ),
            ordered,
          )
