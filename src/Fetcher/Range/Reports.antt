-- ===== src/Fetcher/Range/Reports.antt =====
-- The results that a job sends to the sequencer: one for each block of its range, in order.
use Prim.Native.String.{String}
use web3_indexer_go.Base.{
  ℕ, zero, suc, ◌+◌, ◌-◌, ◌≡◌, refl, sym, ap, ◌∙◌, subst, Bool, true, false, ◌||◌, List, [], ◌∷◌,
  ◌++◌, map, Option, none, some, ◌==◌, if◌then◌else◌, length, ltb, is_some, arith,
}
use web3_indexer_go.Sequencer.State.{BlockData}
use web3_indexer_go.Fetcher.Range.{
  Send, World, notify_fetched, notify_fetch_progress, Tried, got, gave_up, cut_off, Trace, logs_of,
  retry, send_result, outcome_of, fetch_block, go_on, report, report_loop, after_filter,
  fetch_range_with_logs,
}
use web3_indexer_go.Fetcher.Range.Results.{results, results-append, retry-results}

-- The numbers of `m` consecutive blocks from `n` on.
abbrev pub heights : ℕ → ℕ → List (Option ℕ)
heights zero n = []
heights (suc m) n = some n ∷ heights m (n + 1)

module _ {Block Log : Type 0} (block_of : Log → ℕ) (end : ℕ) (logs : List Log) where
  -- The result for the block `n`: its own logs, and a block or an error where it was fetched.
  abbrev pub IsReport : ℕ → BlockData Block Log String → Type 0
  IsReport n d =
      (d.number ≡ some n)
      × (d.range_end ≡ some end)
      × (d.logs ≡ logs_of block_of n logs)
      × ((is_some d.block || is_some d.err)
          ≡ (ltb 0 (length (logs_of block_of n logs)) || n == end))

  -- Results for at most `m` consecutive blocks from `n` on.
  abbrev pub AreReports : ℕ → ℕ → List (BlockData Block Log String) → Type 0
  AreReports m n [] = Unit
  AreReports zero n (d ∷ ds) = ⊥
  AreReports (suc m) n (d ∷ ds) = IsReport n d × AreReports m (n + 1) ds

  pub AreReports-heights :
      (m n : ℕ) (ds : List (BlockData Block Log String))
      → AreReports m n ds
      → length ds ≡ m
      → map (λ d. d.number) ds ≡ heights m n
  AreReports-heights zero n [] r e = refl
  AreReports-heights (suc m) n [] r e = absurd (omega (arith, e))
  AreReports-heights zero n (d ∷ ds) r e = absurd r
  AreReports-heights (suc m) n (d ∷ ds) ((k, f, l, b), r) e =
      ap (λ x. x ∷ map (λ d. d.number) ds) k
      ∙ ap (◌∷◌ (some n)) (AreReports-heights m (n + 1) ds r (omega (arith, e)))

  module _ (w : World Block Log) where
    -- What a fetch leaves: no result yet, and the right data, if any.
    abbrev pub Fetched : ℕ → Trace Block Log × Option (BlockData Block Log String) → Type 0
    Fetched n (es, none) = results es ≡ []
    Fetched n (es, some d) = (results es ≡ []) × IsReport n d

    pub outcome_of-Fetched :
        (n : ℕ) (r : Trace Block Log × Tried Block)
        → results r.0 ≡ []
        → (ltb 0 (length (logs_of block_of n logs)) || n == end) ≡ true
        → Fetched n (r.0, outcome_of block_of w end n (logs_of block_of n logs) r.1)
    unfolding outcome_of
    outcome_of-Fetched n (es, got b) h t = (h, (refl, refl, refl, sym t))
    outcome_of-Fetched n (es, gave_up e) h t = (h, (refl, refl, refl, sym t))
    outcome_of-Fetched n (es, cut_off) h t = h

    Fetched-if :
        (n : ℕ) (b : Bool)
        → (ltb 0 (length (logs_of block_of n logs)) || n == end) ≡ b
        → Fetched n (
            if b
            then (
              (retry (w.block_by_number n) (w.block_waits n) 4 0).0,
              outcome_of block_of w end n
                  (logs_of block_of n logs)
                  (retry {Block = Block} {Log = Log} (w.block_by_number n) (w.block_waits n) 4 0).1,
            )
            else (
              [],
              some record {
                number = some n;
                range_end = some end;
                block = none;
                err = none;
                logs = logs_of block_of n logs;
              },
            ))
    Fetched-if n true h =
        outcome_of-Fetched n (retry (w.block_by_number n) (w.block_waits n) 4 0)
          (retry-results (w.block_by_number n) (w.block_waits n) 4 0) h
    Fetched-if n false h = (refl, (refl, refl, refl, sym h))

    pub fetch_block-Fetched :
        (n : ℕ) → Fetched n (fetch_block block_of w end n (logs_of block_of n logs))
    unfolding fetch_block
    fetch_block-Fetched n = Fetched-if n (ltb 0 (length (logs_of block_of n logs)) || n == end) refl

    -- The results of a send: none, or the data that are sent.
    send_result-results :
        (s : Send) (d : BlockData Block Log String)
        → (results (send_result s d).0 ≡ (if (send_result s d).1 then d ∷ [] else []))
    unfolding send_result
    send_result-results s d = ground arith

    go_on-AreReports :
        (m n : ℕ) (q : Trace Block Log × Bool) (d : BlockData Block Log String)
        (rest : Trace Block Log)
        → results q.0 ≡ (if q.1 then d ∷ [] else [])
        → IsReport n d
        → AreReports m (n + 1) (results rest)
        → AreReports (suc m) n (results (go_on block_of w end n q rest))
    unfolding go_on
    go_on-AreReports m n (es, true) d rest e r h =
        subst (AreReports (suc m) n)
          (sym (
            results-append es (notify_fetch_progress n ∷ rest)
            ∙ ap (λ xs. xs ++ results rest) {y = d ∷ []} e))
          (r, h)
    go_on-AreReports m n (es, false) d rest e r h = subst (AreReports (suc m) n) (sym e) tt

    report-AreReports :
        (m n : ℕ) (q : Trace Block Log × Option (BlockData Block Log String))
        (rest : Trace Block Log)
        → Fetched n q
        → AreReports m (n + 1) (results rest)
        → AreReports (suc m) n (results (report block_of w end n q rest))
    unfolding report
    report-AreReports m n (es, none) rest f h = subst (AreReports (suc m) n) (sym f) tt
    report-AreReports m n (es, some d) rest (e, r) h =
        let q = send_result (w.send n) d in
        subst (AreReports (suc m) n)
          (sym (
            results-append es (go_on block_of w end n q rest)
            ∙ ap (λ xs. xs ++ results (go_on block_of w end n q rest)) {y = []} e))
          (go_on-AreReports m n q d rest (send_result-results (w.send n) d) r h)

    loop-AreReports : (m n : ℕ) → AreReports m n (results (report_loop block_of w end logs m n))
    unfolding report_loop
    loop-AreReports zero n = tt
    loop-AreReports (suc m) n =
        report-AreReports m n (fetch_block block_of w end n (logs_of block_of n logs))
          (report_loop block_of w end logs m (n + 1)) (fetch_block-Fetched n)
          (loop-AreReports m (n + 1))

    -- Whatever fails after the logs have come, a job sends results for consecutive blocks from the
    -- start of its range on, never past its end: each with the block's own logs, and with a block or
    -- an error exactly when it has logs or is the last one.
    pub fetch_range-AreReports :
        (start : ℕ)
        → (retry {Block = Block} {Log = Log} w.filter_logs w.filter_waits 4 0).1 ≡ got logs
        → AreReports (end + 1 - start) start (results (fetch_range_with_logs block_of w end start))
    unfolding fetch_range_with_logs
    fetch_range-AreReports start h =
        let ms = (retry {Block = Block} {Log = Log} w.filter_logs w.filter_waits 4 0).0 in
        subst
          (λ r.
            AreReports (end + 1 - start) start
              (results (after_filter block_of w end start (ms, r))))
          (sym h)
          (subst (AreReports (end + 1 - start) start)
            (sym (
              results-append ms
                (notify_fetched end ∷ report_loop block_of w end logs (end + 1 - start) start)
              ∙ ap (λ xs. xs ++ results (report_loop block_of w end logs (end + 1 - start) start))
                  {y = []} (retry-results w.filter_logs w.filter_waits 4 0)))
            (loop-AreReports (end + 1 - start) start))
