-- ===== src/Pipeline/Tests.antt =====
-- A job for the blocks 10 to 12 and a sequencer that expects block 10. A block and a log are the
-- block's number.
use Prim.Native.String.{String}
use web3_indexer_go.Base.{ℕ, ◌+◌, ◌≡◌, refl, true, false, [], ◌∷◌, none, some, inr, length, arith}
use web3_indexer_go.Sequencer.State.{processed, Env, Sequencer, done}
use web3_indexer_go.Sequencer.Handle.{buffer_limit}
use web3_indexer_go.Sequencer.Handle.Order.{InOrder}
use web3_indexer_go.Sequencer.Batch.{handle_all}
use web3_indexer_go.Fetcher.Range.{logs_of, passes, World, got, retry, fetch_range_with_logs}
use web3_indexer_go.Fetcher.Range.Results.{results}
use web3_indexer_go.Pipeline.{IsGood, handle_all-fetch_range}

abbrev accepting : Env ℕ ℕ String
accepting = record {
  number_of = λ b. b;
  now = λ h. length h;
  process = λ h d. processed;
  process_all = λ h ds. none;
  client = true;
  block_by_number = λ h n. some n;
  filter_logs = λ h n. some [];
  reorg_sent = λ h. true;
}

abbrev world : World ℕ ℕ
world = record {
  filter_logs = λ k. inr (11 ∷ 12 ∷ 10 ∷ 11 ∷ []);
  filter_waits = λ k. true;
  error_delivered = true;
  block_by_number = λ n k. inr n;
  block_waits = λ n k. true;
  send = λ n. record { has_recorder = false; throughput = some true; delivered = true };
}

abbrev at_ten : Sequencer ℕ ℕ String
at_ten = record {
  expected_block = 10;
  buffer = [];
  fetcher = none;
  has_reorg_ch = false;
  chain_id = 1;
  last_progress_at = 0;
  gap_fill_count = 0;
  history = [];
}

good : IsGood accepting (λ l. l) world 10 12 (11 ∷ 12 ∷ 10 ∷ 11 ∷ [])
unfolding passes logs_of
good = record {
  brings = λ n. (n, refl, refl);
  has_logs = λ n a b. ground (arith, a, b);
  sends = λ n. refl;
}

first_answer :
    (retry {Block = ℕ} {Log = ℕ} world.filter_logs world.filter_waits 4 0).1
    ≡ got (11 ∷ 12 ∷ 10 ∷ 11 ∷ [])
unfolding retry
first_answer = refl

handle_all-fetch_range_example :
    let (t, r) =
      handle_all accepting at_ten (results (fetch_range_with_logs (λ l. l) world 12 10)) in
    (r ≡ done) × (t.expected_block ≡ 12 + 1) × InOrder accepting 10 [] t.expected_block t.history
unfolding buffer_limit
handle_all-fetch_range_example =
    handle_all-fetch_range accepting (λ l. l) world 10 12 (11 ∷ 12 ∷ 10 ∷ 11 ∷ []) good
      (λ h d. refl) at_ten first_answer refl refl (omega arith) (omega arith)
