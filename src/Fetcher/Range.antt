-- ===== src/Fetcher/Range.antt =====
-- internal/engine/fetcher_block.go: what a worker does with a job, `fetchRangeWithLogs`. `World` holds
-- what the RPC client, the context, the limiter and the results channel answer. The timeouts of the
-- calls are among the errors that the client answers with.
pub mod Results
pub mod Reports
pub mod Complete
mod Tests
use Prim.Native.String.{String}
use web3_indexer_go.Base.{
  contains, ℕ, zero, suc, ◌+◌, ◌-◌, Bool, true, false, ◌&&◌, ◌||◌, not, List, [], ◌∷◌, ◌++◌, Option,
  none, some, ◌==◌, ◌⊎◌, inl, inr, if◌then◌else◌, keep, length, ltb, is_some, to_lower,
}
use web3_indexer_go.Sequencer.State.{BlockData}

-- On the text of an error.
unfoldable pub is_not_found : String → Bool
unfolding contains
is_not_found message = contains (to_lower message) "not found" || contains (to_lower message) "404"

-- What `sendResult` meets: a recorder, whether `WaitN` passes, where there is a throughput limiter,
-- and whether the send wins over the end of the context and of the fetcher.
pub record Send : Type 0 where
  pub has_recorder : Bool
  pub throughput : Option Bool
  pub delivered : Bool

-- The calls are told apart by the number of the retry, and by that of the block. `filter_waits` and
-- `block_waits` say whether a backoff ends before the context does.
pub record World (Block Log : Type 0) : Type 0 where
  pub filter_logs : ℕ → String ⊎ List Log
  pub filter_waits : ℕ → Bool
  pub error_delivered : Bool
  pub block_by_number : ℕ → ℕ → String ⊎ Block
  pub block_waits : ℕ → ℕ → Bool
  pub send : ℕ → Send

-- The messages to the coordinator, the results, and what is recorded, in order.
pub data Emitted (Block Log : Type 0) : Type 0 where
  fetch_success : Emitted Block Log
  fetch_failed : Emitted Block Log
  notify_fetched : ℕ → Emitted Block Log
  notify_fetch_progress : ℕ → Emitted Block Log
  recorded : BlockData Block Log String → Emitted Block Log
  sent : BlockData Block Log String → Emitted Block Log

-- How a loop of retries ends.
pub data Tried (A : Type 0) : Type 0 where
  got : A → Tried A
  gave_up : String → Tried A
  cut_off : Tried A

abbrev pub Trace : Type 0 → Type 0 → Type 0
Trace Block Log = List (Emitted Block Log)

unfoldable pub passes : Option Bool → Bool
passes none = true
passes (some b) = b

-- An element of `logsByBlock`.
unfoldable pub logs_of : {Log : Type 0} → (Log → ℕ) → ℕ → List Log → List Log
logs_of block_of n logs = keep (λ l. block_of l == n) logs

module _ {Block Log : Type 0} where
  -- The retry loop with `n` attempts after this one, the `k`-th.
  unfoldable pub retry :
      {A : Type 0} → (ℕ → String ⊎ A) → (ℕ → Bool) → ℕ → ℕ → Trace Block Log × Tried A
  unfolding is_not_found
  retry call waits zero k = elim (call k) [
    | inr a ↦ (fetch_success ∷ [], got a)
    | inl e ↦
        if is_not_found e
        then (fetch_failed ∷ [], if waits k then gave_up e else cut_off)
        else ([], gave_up e)
  ]
  retry call waits (suc n) k =
      let (ms, r) = retry call waits n (k + 1) in
      elim (call k) [
        | inr a ↦ (fetch_success ∷ [], got a)
        | inl e ↦
            if is_not_found e
            then (if waits k then (fetch_failed ∷ ms, r) else (fetch_failed ∷ [], cut_off))
            else ([], gave_up e)
      ]

  unfoldable pub send_result : Send → BlockData Block Log String → Trace Block Log × Bool
  unfolding passes
  send_result s d =
      let record_of : Trace Block Log =
        if s.has_recorder && not (is_some d.err) then recorded d ∷ [] else [] in
      if passes s.throughput && s.delivered
      then (record_of ++ sent d ∷ [], true)
      else (record_of, false)

module _ {Block Log : Type 0} (block_of : Log → ℕ) (w : World Block Log) (end : ℕ) where
  -- The block is fetched when it has logs or is the last one; none is the end of the job.
  unfoldable pub outcome_of : ℕ → List Log → Tried Block → Option (BlockData Block Log String)
  outcome_of n logs (got b) =
      some record { number = some n; range_end = some end; block = some b; err = none; logs = logs }
  outcome_of n logs (gave_up e) =
      some record { number = some n; range_end = some end; block = none; err = some e; logs = logs }
  outcome_of n logs cut_off = none

  unfoldable pub fetch_block : ℕ → List Log → Trace Block Log × Option (BlockData Block Log String)
  unfolding retry outcome_of
  fetch_block n logs =
      if ltb 0 (length logs) || n == end
      then (let (ms, r) = retry (w.block_by_number n) (w.block_waits n) 4 0 in
          (ms, outcome_of n logs r))
      else (
        [],
        some
            record { number = some n; range_end = some end; block = none; err = none; logs = logs },
      )

  unfoldable pub go_on : ℕ → Trace Block Log × Bool → Trace Block Log → Trace Block Log
  go_on n (es, true) rest = es ++ notify_fetch_progress n ∷ rest
  go_on n (es, false) rest = es

  unfoldable pub report :
      ℕ → Trace Block Log × Option (BlockData Block Log String) → Trace Block Log → Trace Block Log
  unfolding go_on send_result
  report n (ms, none) rest = ms
  report n (ms, some d) rest = ms ++ go_on n (send_result (w.send n) d) rest

  -- The loop over the blocks, from `n` on, with `m` left.
  unfoldable pub report_loop : List Log → ℕ → ℕ → Trace Block Log
  unfolding report fetch_block logs_of
  report_loop logs zero n = []
  report_loop logs (suc m) n =
      let rest = report_loop logs m (n + 1) in
      report n (fetch_block n (logs_of block_of n logs)) rest

  unfoldable pub after_filter : ℕ → Trace Block Log × Tried (List Log) → Trace Block Log
  unfolding report_loop
  after_filter start (ms, cut_off) = ms
  after_filter start (ms, gave_up e) =
      if w.error_delivered
      then ms
        ++ sent record {
          number = some start;
          range_end = some end;
          block = none;
          err = some e;
          logs = [];
        }
          ∷ []
      else ms
  after_filter start (ms, got logs) =
      ms ++ notify_fetched end ∷ report_loop logs (end + 1 - start) start

  unfoldable pub fetch_range_with_logs : ℕ → Trace Block Log
  unfolding after_filter retry
  fetch_range_with_logs start = after_filter start (retry w.filter_logs w.filter_waits 4 0)
