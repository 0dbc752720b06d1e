-- ===== src/Sequencer/Tests.antt =====
-- Runs of the sequencer on concrete blocks, and the theorems at concrete inputs.
use web3_indexer_go.Base.{
  ℕ, zero, suc, ◌+◌, ◌*◌, ◌≤◌, ◌<◌, ◌≡◌, refl, true, false, ◌||◌, ltb, leb, ◌&&◌, if◌then◌else◌,
  none, some, arith, length, List, [], ◌∷◌, is_some, not, false, ◌-◌,
}
use web3_indexer_go.Fetcher.{Fetcher}
use web3_indexer_go.Sequencer.Buffer.{lookup, insert, delete, min_buffered}
use web3_indexer_go.Sequencer.State.{
  BlockData, processed, reorg, Env, Sequencer, done, failed, processor_error, process_batch,
}
use web3_indexer_go.Sequencer.Process.{
  process_sequential, after_process, drain_loop, process_buffer_continuations, advance, next_round,
  finish_drain,
}
use web3_indexer_go.Sequencer.Process.Total.{continuations-take}
use web3_indexer_go.Sequencer.Process.Drain.{Ended, process_run}
use web3_indexer_go.Sequencer.Handle.{
  handle_block, handle_fetched, hydrate, settle, place, is_range_progress_signal, after_sequential,
  buffer_limit, enforce_buffer_limit, after_block,
}
use web3_indexer_go.Sequencer.Handle.Order.{InOrder, arrived}
use web3_indexer_go.Sequencer.Batch.{handle_all, handle_batch, is_block_at}
use web3_indexer_go.Sequencer.Batch.Arrivals.{
  IsFetched, handle_all-InOrder, handle_all-order_irrelevant,
}
use web3_indexer_go.Sequencer.Batch.Commit.{handle_batch-rejected, handle_batch-commits}
use web3_indexer_go.Sequencer.Stall.{handle_stall, heal_gap, skip_block, get_idle_time}
use web3_indexer_go.Sequencer.Stall.Gap.{handle_stall-schedule, stall_ticks, stall_ticks-progress}

-- Blocks, logs and errors are numbers here, and a block is its own number.
abbrev Data : Type 0
Data = BlockData ℕ ℕ ℕ

abbrev accepting : Env ℕ ℕ ℕ
accepting = record {
  number_of = λ b. b;
  now = λ h. 60000000000 * length h + 60000000000;
  process = λ h d. processed;
  process_all = λ h ds. none;
  client = false;
  block_by_number = λ h n. none;
  filter_logs = λ h n. none;
  reorg_sent = λ h. true;
}

abbrev reorganised : Env ℕ ℕ ℕ
reorganised = record accepting { process = λ h d. reorg }

abbrev refusing : Env ℕ ℕ ℕ
refusing = record accepting { process_all = λ h ds. some 7 }

abbrev block : ℕ → Data
block n = record { number = some n; range_end = none; block = some n; err = none; logs = [] }

abbrev fetcher : Fetcher
fetcher = record {
  paused = false;
  stopped = false;
  jobs = [];
  jobs_cap = 10;
  results_depth = 0;
  results_cap = 10;
}

abbrev at_five : List (ℕ × Data) → ℕ → Sequencer ℕ ℕ ℕ
at_five buffer gap_fill_count = record {
  expected_block = 5;
  buffer = buffer;
  fetcher = some fetcher;
  has_reorg_ch = true;
  chain_id = 1;
  last_progress_at = 0;
  gap_fill_count = gap_fill_count;
  history = [];
}

abbrev fetched : (n : ℕ) → IsFetched accepting (block n)
fetched n = (n, (refl, refl))

abbrev shuffled : List Data
shuffled = block 7 ∷ block 5 ∷ block 9 ∷ block 6 ∷ []

shuffled_run : (handle_all accepting (at_five [] 0) shuffled).0.expected_block ≡ 8
unfolding handle_all handle_block handle_fetched is_range_progress_signal hydrate settle place
    after_sequential after_block enforce_buffer_limit buffer_limit process_sequential after_process
    advance process_buffer_continuations drain_loop next_round finish_drain lookup insert delete
shuffled_run = refl

handle_all-InOrder_example :
    let (t, r) = handle_all accepting (at_five [] 0) shuffled in
    (r ≡ done)
    × InOrder accepting 5 [] t.expected_block t.history
    × (arrived accepting t.expected_block shuffled ≡ false)
    × (arrived accepting 9 shuffled ≡ (ltb 9 t.expected_block || is_some (lookup 9 t.buffer)))
unfolding buffer_limit
handle_all-InOrder_example =
    handle_all-InOrder accepting (λ h d. refl) (at_five [] 0) refl shuffled
      (fetched 7, (fetched 5, (fetched 9, (fetched 6, tt)))) (omega arith) 9 (omega arith)

handle_all-order_irrelevant_example :
    (handle_all accepting (at_five [] 0) (block 6 ∷ block 5 ∷ [])).0.expected_block
    ≡ (handle_all accepting (at_five [] 0) (block 5 ∷ block 6 ∷ [])).0.expected_block
unfolding buffer_limit
handle_all-order_irrelevant_example =
    handle_all-order_irrelevant accepting (λ h d. refl) (at_five [] 0) refl (block 6 ∷ block 5 ∷ [])
      (block 5 ∷ block 6 ∷ []) (fetched 6, (fetched 5, tt)) (fetched 5, (fetched 6, tt))
      (omega arith) (omega arith) (λ k. ground arith)

handle_batch-commits_example :
    let (t, r) = handle_batch accepting (at_five ((7, block 7) ∷ []) 0) (block 5 ∷ block 6 ∷ []) in
    (r ≡ done)
    × (7 ≤ t.expected_block)
    × (lookup 7 t.buffer
        ≡ (if leb 7 7 && ltb 7 t.expected_block then none else lookup 7 ((7, block 7) ∷ [])))
    × ((leb 7 7 && ltb 7 t.expected_block && not (is_some (lookup 7 ((7, block 7) ∷ [])))) ≡ false)
    × Ended accepting t (
        process_run
          ((7, block 7) ∷ [])
          7
          (t.expected_block - 7)
          (process_batch (block 5 ∷ block 6 ∷ []) none ∷ []))
unfolding is_block_at
handle_batch-commits_example =
    handle_batch-commits accepting (at_five ((7, block 7) ∷ []) 0) (block 5) (block 6) []
      (refl, (refl, tt)) (λ h b. cc) refl 7

handle_batch-rejected_example :
    (handle_batch refusing (at_five [] 0) (block 5 ∷ block 6 ∷ [])).1 ≡ failed (processor_error 7)
unfolding is_block_at
handle_batch-rejected_example =
    (handle_batch-rejected refusing (at_five [] 0) (block 5) (block 6) [] (refl, (refl, tt)) 7
      refl).0

handle_stall-schedule_example :
    let s = at_five ((9, block 9) ∷ []) 0 in
    (◌≡◌ {A = ℕ} 5 5)
    × ((handle_stall accepting s).expected_block ≡ 5)
    × (lookup 6 s.buffer ≡ none)
    × (is_some (lookup 9 s.buffer) ≡ true)
unfolding handle_stall heal_gap skip_block get_idle_time min_buffered
handle_stall-schedule_example =
    handle_stall-schedule accepting (at_five ((9, block 9) ∷ []) 0) 5 8 6 refl (omega arith)
      (omega arith)

stall_ticks-progress_example :
    5 < (stall_ticks accepting 4 (at_five ((9, block 9) ∷ []) 0)).expected_block
stall_ticks-progress_example =
    stall_ticks-progress accepting (at_five ((9, block 9) ∷ []) 0) (λ h. omega arith)

abbrev stuck : Sequencer ℕ ℕ ℕ
stuck = at_five ((9, block 9) ∷ []) 3

abbrev filler : ℕ → List (ℕ × Data)
filler zero = []
filler (suc n) = (100 + n, block (100 + n)) ∷ filler n

abbrev crowded : Sequencer ℕ ℕ ℕ
crowded = at_five ((2, block 2) ∷ filler 1000) 0

continuations-take_example :
    let (t, r) = process_buffer_continuations accepting (at_five ((5, block 5) ∷ []) 0) in
    (r ≡ done)
    × (5 ≤ t.expected_block)
    × (lookup 5 t.buffer
        ≡ (if leb 5 5 && ltb 5 t.expected_block then none else lookup 5 ((5, block 5) ∷ [])))
    × ((leb 5 5 && ltb 5 t.expected_block && not (is_some (lookup 5 ((5, block 5) ∷ [])))) ≡ false)
    × Ended accepting t (process_run ((5, block 5) ∷ []) 5 (t.expected_block - 5) [])
continuations-take_example =
    continuations-take accepting (λ h d. cc) (at_five ((5, block 5) ∷ []) 0) 5
