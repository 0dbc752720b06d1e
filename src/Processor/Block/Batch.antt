-- ===== src/Processor/Block/Batch.antt =====
-- processor_batch.go: what `ProcessBatch` commits and reports.
use web3_indexer_go.Base.{
  ℕ, ◌≡◌, refl, ap, ◌∙◌, true, List, [], ◌∷◌, ◌++◌, map, Option, none, some, arith, if◌then◌else◌,
  length, if_intro,
}
use mathlib.Core.List.{append-nil}
use web3_indexer_go.Processor.Types.{Log, Block, BlockRow, Transfer, Codec}
use web3_indexer_go.Processor.Anvil.{process_batch_synthetic}
use web3_indexer_go.Processor.Extract.{batch_activities}
use web3_indexer_go.Processor.Block.{
  BlockData, Processor, Effect, commit_batch, block_event, gas_leaderboard, transfer_event,
  record_activity, sync_height, block_row, persist_task, push_events, batch_block, batch_fetched,
  block_of, batch_loop, number_of_last, height_report, update_batch_metrics, process_batch,
}
use web3_indexer_go.Processor.Block.Linked.{committed, committed-append, push_events-committed}

abbrev pub rows_of : Codec → Option Block → List BlockRow
rows_of codec none = []
rows_of codec (some b) = block_row codec b ∷ []

abbrev pub fetched_rows : {E : Type 0} → Codec → List (BlockData E) → List BlockRow
fetched_rows codec [] = []
fetched_rows codec (d ∷ ds) = rows_of codec (block_of d) ++ fetched_rows codec ds

-- The heights that the metrics are told.
abbrev pub reported : List Effect → List ℕ
reported [] = []
reported (sync_height n ∷ es) = n ∷ reported es
reported (e ∷ es) = reported es

module _ (codec : Codec) (chain_id : ℕ) (now : ℕ → ℕ) (p : Processor) where
  batch_fetched-committed :
      (logs : List Log) (o : Option Block)
      → committed (batch_fetched codec chain_id now p logs o) ≡ rows_of codec o
  unfolding batch_fetched persist_task
  batch_fetched-committed logs none = refl
  batch_fetched-committed logs (some b) =
      let ts : List Transfer =
        process_batch_synthetic codec chain_id p.simulator b
          (batch_activities codec b.number p.enricher logs b.transactions) in
      ap (◌∷◌ (block_row codec b)) (push_events-committed codec p b ts [])

  batch_loop-committed :
      {E : Type 0} (ds : List (BlockData E))
      → committed (batch_loop codec chain_id now p ds) ≡ fetched_rows codec ds
  unfolding batch_loop batch_block
  batch_loop-committed [] = refl
  batch_loop-committed (d ∷ ds) =
      committed-append (batch_block codec chain_id now p d) (batch_loop codec chain_id now p ds)
      ∙ ap (◌++ (committed (batch_loop codec chain_id now p ds)))
          (batch_fetched-committed d.logs (block_of d))
      ∙ ap ((rows_of codec (block_of d)) ++◌) (batch_loop-committed ds)

  height_report-committed : (o : Option ℕ) → committed (height_report o) ≡ []
  unfolding height_report
  height_report-committed none = refl
  height_report-committed (some n) = refl

  metrics-committed :
      {E : Type 0} (ds : List (BlockData E)) → committed (update_batch_metrics p ds) ≡ []
  unfolding update_batch_metrics
  metrics-committed ds =
      if_intro (λ es. committed es ≡ []) p.has_metrics (height_report (number_of_last ds)) []
        (height_report-committed (number_of_last ds)) refl

  -- `ProcessBatch` commits the fetched blocks of a batch in order, each once, and passes over the
  -- elements without a block: it compares no parent hash.
  pub process_batch-committed :
      {E : Type 0} (ds : List (BlockData E))
      → committed (process_batch codec chain_id now p ds) ≡ fetched_rows codec ds
  unfolding process_batch
  process_batch-committed ds =
      committed-append (batch_loop codec chain_id now p ds) (update_batch_metrics p ds)
      ∙ ap ((committed (batch_loop codec chain_id now p ds)) ++◌) (metrics-committed ds)
      ∙ append-nil (committed (batch_loop codec chain_id now p ds))
      ∙ batch_loop-committed ds

  reported-append : (xs ys : List Effect) → reported (xs ++ ys) ≡ reported xs ++ reported ys
  reported-append [] ys = refl
  reported-append (sync_height n ∷ xs) ys = ap (◌∷◌ n) (reported-append xs ys)
  reported-append (block_event b ∷ xs) ys = reported-append xs ys
  reported-append (gas_leaderboard g ∷ xs) ys = reported-append xs ys
  reported-append (transfer_event t ∷ xs) ys = reported-append xs ys
  reported-append (record_activity n ∷ xs) ys = reported-append xs ys
  reported-append (commit_batch t ∷ xs) ys = reported-append xs ys

  reported-events : (ts : List Transfer) → reported (map transfer_event ts) ≡ []
  reported-events [] = refl
  reported-events (t ∷ ts) = reported-events ts

  batch_fetched-reported :
      (logs : List Log) (o : Option Block)
      → reported (batch_fetched codec chain_id now p logs o) ≡ []
  unfolding batch_fetched push_events
  batch_fetched-reported logs none = refl
  batch_fetched-reported logs (some b) =
      let ts : List Transfer =
        process_batch_synthetic codec chain_id p.simulator b
          (batch_activities codec b.number p.enricher logs b.transactions) in
      if_intro (λ es. reported es ≡ []) p.has_event_hook
        (block_event b
            ∷ gas_leaderboard []
            ∷ (if p.has_metrics then record_activity (length ts) ∷ [] else [])
          ++ map transfer_event ts)
        []
        (if_intro (λ xs. reported (xs ++ map transfer_event ts) ≡ []) p.has_metrics
          (record_activity (length ts) ∷ []) [] (reported-events ts) (reported-events ts))
        refl

  batch_loop-reported :
      {E : Type 0} (ds : List (BlockData E)) → reported (batch_loop codec chain_id now p ds) ≡ []
  unfolding batch_loop batch_block
  batch_loop-reported [] = refl
  batch_loop-reported (d ∷ ds) =
      reported-append (batch_block codec chain_id now p d) (batch_loop codec chain_id now p ds)
      ∙ ap (◌++ (reported (batch_loop codec chain_id now p ds)))
          (batch_fetched-reported d.logs (block_of d))
      ∙ batch_loop-reported ds

  number_of_last-snoc :
      {E : Type 0} (ds : List (BlockData E)) (d : BlockData E) (n : ℕ)
      → d.block ≡ none
      → d.number ≡ some n
      → number_of_last (ds ++ d ∷ []) ≡ some n
  unfolding number_of_last
  number_of_last-snoc [] d n h g = ground arith
  number_of_last-snoc (e ∷ []) d n h g = number_of_last-snoc [] d n h g
  number_of_last-snoc (e ∷ f ∷ ds) d n h g = number_of_last-snoc (f ∷ ds) d n h g

  block_of-none : {E : Type 0} (d : BlockData E) → d.block ≡ none → block_of d ≡ none
  unfolding block_of
  block_of-none d h = ground arith

  fetched_rows-snoc :
      {E : Type 0} (ds : List (BlockData E)) (d : BlockData E)
      → d.block ≡ none
      → fetched_rows codec (ds ++ d ∷ []) ≡ fetched_rows codec ds
  fetched_rows-snoc [] d h = ap (λ o. rows_of codec o ++ []) (block_of-none d h)
  fetched_rows-snoc (e ∷ ds) d h = ap ((rows_of codec (block_of e)) ++◌) (fetched_rows-snoc ds d h)

  reports_last :
      {E : Type 0} (ds : List (BlockData E)) (n : ℕ)
      → p.has_metrics ≡ true
      → number_of_last ds ≡ some n
      → update_batch_metrics p ds ≡ sync_height n ∷ []
  unfolding update_batch_metrics height_report
  reports_last ds n m h =
      ap (λ x. if x then height_report (number_of_last ds) else []) m ∙ ap height_report h

  -- A batch whose last block was not fetched reports that block's height as synchronised, though it
  -- commits no row of it.
  pub process_batch-reported :
      {E : Type 0} (ds : List (BlockData E)) (d : BlockData E) (n : ℕ)
      → p.has_metrics ≡ true
      → d.block ≡ none
      → d.number ≡ some n
      → (reported (process_batch codec chain_id now p (ds ++ d ∷ [])) ≡ n ∷ [])
        × (committed (process_batch codec chain_id now p (ds ++ d ∷ [])) ≡ fetched_rows codec ds)
  unfolding process_batch
  process_batch-reported ds d n m h g =
      let es = batch_loop codec chain_id now p (ds ++ d ∷ []) in
      let last = reports_last (ds ++ d ∷ []) n m (number_of_last-snoc ds d n h g) in
      (
        reported-append es (update_batch_metrics p (ds ++ d ∷ []))
            ∙ ap (◌++ (reported (update_batch_metrics p (ds ++ d ∷ []))))
                (batch_loop-reported (ds ++ d ∷ []))
            ∙ ap reported last,
        process_batch-committed (ds ++ d ∷ []) ∙ fetched_rows-snoc ds d h,
      )
