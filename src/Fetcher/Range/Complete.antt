-- ===== src/Fetcher/Range/Complete.antt =====
-- A job that nothing cuts short sends a result for every block of its range.
use Prim.Native.String.{String}
use web3_indexer_go.Base.{
  ℕ, ◌≡◌, sym, ap, subst, true, ◌&&◌, List, [], ◌∷◌, ◌++◌, none, some, if◌then◌else◌, length, arith,
}
use web3_indexer_go.Sequencer.State.{BlockData}
use web3_indexer_go.Fetcher.Range.{
  World, sent, gave_up, passes, retry, after_filter, fetch_range_with_logs,
}
use web3_indexer_go.Fetcher.Range.Results.{results, results-length, retry-results}

module _ {Block Log : Type 0} (block_of : Log → ℕ) (end : ℕ) (logs : List Log) where
  module _ (w : World Block Log) where
    -- No backoff is cut short and every send of a result goes through.
    abbrev pub IsSmooth : Type 0
    IsSmooth =
        ((n k : ℕ) → w.block_waits n k ≡ true)
        × ((n : ℕ) → (passes (w.send n).throughput && (w.send n).delivered) ≡ true)

    -- When the logs do not come, a job sends one result, the error for the first block of its range.
    fetch_range-failed :
        (start : ℕ) (e : String)
        → (retry {Block = Block} {Log = Log} w.filter_logs w.filter_waits 4 0).1 ≡ gave_up e
        → w.error_delivered ≡ true
        → length (results (fetch_range_with_logs block_of w end start)) ≡ 1
    unfolding fetch_range_with_logs
    fetch_range-failed start e h t =
        let ms = (retry {Block = Block} {Log = Log} w.filter_logs w.filter_waits 4 0).0 in
        let d : BlockData Block Log String = record {
          number = some start;
          range_end = some end;
          block = none;
          err = some e;
          logs = [];
        } in
        subst (λ r. length (results (after_filter block_of w end start (ms, r))) ≡ 1) (sym h)
          (subst (λ b. length (results (if b then ms ++ sent d ∷ [] else ms)) ≡ 1) (sym t)
            (omega (
              arith,
              results-length ms (sent d ∷ []),
              ap length
                  (retry-results {Block = Block} {Log = Log} w.filter_logs w.filter_waits 4 0),
            )))
