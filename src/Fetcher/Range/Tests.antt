-- ===== src/Fetcher/Range/Tests.antt =====
-- A job for the blocks 10 to 12, whose first `FilterLogs` finds nothing; a log is its block's number.

use web3_indexer_go.Base.{
  ℕ, ◌+◌, ◌-◌, ◌≡◌, refl, true, [], ◌∷◌, none, ◌==◌, inl, inr, if◌then◌else◌, to_lower, contains,
  has_prefix,
}
use web3_indexer_go.Fetcher.Range.{is_not_found, World, got, retry, fetch_range_with_logs}
use web3_indexer_go.Fetcher.Range.Results.{results}
use web3_indexer_go.Fetcher.Range.Reports.{AreReports, fetch_range-AreReports}

abbrev world : World ℕ ℕ
world = record {
  filter_logs = λ k. if k == 0 then inl "Block Not Found" else inr (11 ∷ 12 ∷ 11 ∷ []);
  filter_waits = λ k. true;
  error_delivered = true;
  block_by_number = λ n k. if n == 11 then inr 11 else inl "timeout";
  block_waits = λ n k. true;
  send = λ n. record { has_recorder = true; throughput = none; delivered = true };
}

recognises_404 : is_not_found "status 404 of the node" ≡ true
unfolding is_not_found contains has_prefix to_lower
recognises_404 = refl

retried :
    (retry {Block = ℕ} {Log = ℕ} world.filter_logs world.filter_waits 4 0).1
    ≡ got (11 ∷ 12 ∷ 11 ∷ [])
unfolding retry is_not_found contains has_prefix to_lower
retried = refl

fetch_range-AreReports_example :
    AreReports {Block = ℕ}
      (λ l. l)
      12
      (11 ∷ 12 ∷ 11 ∷ [])
      (12 + 1 - 10)
      10
      (results (fetch_range_with_logs (λ l. l) world 12 10))
fetch_range-AreReports_example =
    fetch_range-AreReports (λ l. l) 12 (11 ∷ 12 ∷ 11 ∷ []) world 10 retried
