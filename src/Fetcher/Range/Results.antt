-- ===== src/Fetcher/Range/Results.antt =====
-- The results among what a job emits, and the retry loop of `fetchRangeWithLogs`.
use Prim.Native.String.{String}
use web3_indexer_go.Base.{
  ℕ, zero, suc, ◌+◌, ◌≡◌, refl, ap, ◌∙◌, Bool, true, false, List, [], ◌∷◌, ◌++◌, ◌⊎◌, length, arith,
  length-append,
}
use web3_indexer_go.Sequencer.State.{BlockData}
use web3_indexer_go.Fetcher.Range.{
  fetch_success, fetch_failed, notify_fetched, notify_fetch_progress, recorded, sent, Tried,
  cut_off, Trace, retry,
}

unfoldable pub is_cut_off : {A : Type 0} → Tried A → Bool
is_cut_off cut_off = true
is_cut_off _ = false

pub retry-goes_on :
    (Block Log : Type 0) {A : Type 0} (call : ℕ → String ⊎ A) (waits : ℕ → Bool)
    → ((k : ℕ) → waits k ≡ true)
    → (n k : ℕ) → is_cut_off (retry {Block = Block} {Log = Log} call waits n k).1 ≡ false
unfolding retry is_cut_off
retry-goes_on Block Log call waits h zero k = ground (arith, h k)
retry-goes_on Block Log call waits h (suc n) k =
    ground (arith, h k, retry-goes_on Block Log call waits h n (k + 1))

module _ {Block Log : Type 0} where
  abbrev pub results : Trace Block Log → List (BlockData Block Log String)
  results [] = []
  results (fetch_success ∷ es) = results es
  results (fetch_failed ∷ es) = results es
  results (notify_fetched n ∷ es) = results es
  results (notify_fetch_progress n ∷ es) = results es
  results (recorded d ∷ es) = results es
  results (sent d ∷ es) = d ∷ results es

  pub results-append : (es fs : Trace Block Log) → results (es ++ fs) ≡ results es ++ results fs
  results-append [] fs = refl
  results-append (fetch_success ∷ es) fs = results-append es fs
  results-append (fetch_failed ∷ es) fs = results-append es fs
  results-append (notify_fetched n ∷ es) fs = results-append es fs
  results-append (notify_fetch_progress n ∷ es) fs = results-append es fs
  results-append (recorded d ∷ es) fs = results-append es fs
  results-append (sent d ∷ es) fs = ap (d ∷◌) (results-append es fs)

  pub results-length :
      (es fs : Trace Block Log)
      → length (results (es ++ fs)) ≡ length (results es) + length (results fs)
  results-length es fs = ap length (results-append es fs) ∙ length-append (results es) (results fs)

  pub retry-results :
      {A : Type 0} (call : ℕ → String ⊎ A) (waits : ℕ → Bool) (n k : ℕ)
      → results (retry {Block = Block} {Log = Log} call waits n k).0 ≡ []
  unfolding retry
  retry-results call waits zero k = ground arith
  retry-results call waits (suc n) k = ground (arith, retry-results call waits n (k + 1))
