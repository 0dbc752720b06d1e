-- ===== src/Processor/Block.antt =====
-- processor_block_part1.go and processor_batch.go: a block, checked against its parent, becomes a
-- task for the orchestrator; a batch of blocks does so without the check. Heights are below 2 ^ 63.
pub mod Linked
pub mod Batch
use Prim.Native.String.{String}
use text.Mathlib.Text.{◌==◌ as str_eq}
use web3_indexer_go.Base.{
  ℕ, zero, suc, ◌+◌, ◌-◌, ◌%◌, ◌^◌, Bool, true, false, ◌&&◌, ◌||◌, not, List, [], ◌∷◌, ◌++◌, map,
  Option, none, some, ltb, ◌==◌, if◌then◌else◌, is_some, length,
}
use web3_indexer_go.AsyncWriter.{PersistTask}
use web3_indexer_go.Processor.Reorg.{Found, row, no_rows, query_failed}
use web3_indexer_go.Processor.Types.{Log, Transaction, Block, BlockRow, Transfer, Codec}
use web3_indexer_go.Processor.Extract.{extract_activities, batch_activities}
use web3_indexer_go.Processor.Anvil.{Simulator, process_anvil_synthetic, process_batch_synthetic}
use web3_indexer_go.Processor.Gas.{GasSpender, analyze_gas}

-- `BlockData` as the processor reads it; a nil pointer or error is none.
pub record BlockData (E : Type 0) : Type 0 where
  pub number : Option ℕ
  pub block : Option Block
  pub err : Option E
  pub logs : List Log

pub record Processor : Type 0 where
  pub chain_id : ℕ
  pub has_event_hook : Bool
  pub has_metrics : Bool
  pub simulator : Simulator
  pub enricher : Option (ℕ → String)
  pub last_block_num : ℕ
  pub last_block_hash : String

pub data Error (E : Type 0) : Type 0 where
  fetch_error : E → Error E
  reorg_error : ℕ → Error E
  -- a nil block is dereferenced
  nil_block : Error E

-- What a call sends to the orchestrator, to the event hook and to the metrics.
pub data Effect : Type 0 where
  commit_batch : PersistTask BlockRow Transfer → Effect
  block_event : Block → Effect
  gas_leaderboard : List GasSpender → Effect
  transfer_event : Transfer → Effect
  record_activity : ℕ → Effect
  sync_height : ℕ → Effect

-- The clock and the random numbers of a call.
pub record World : Type 0 where
  pub now : ℕ
  pub extra : ℕ
  pub amount : ℕ → ℕ

unfoldable pub reorg_if : {E : Type 0} → Bool → ℕ → Option (Error E)
reorg_if differs block_num = if differs then some (reorg_error block_num) else none

unfoldable pub differs_from : String → Found → Bool
differs_from parent (row h) = not (str_eq h parent)
differs_from parent _ = false

-- The answer for the height below `block_num`; there is no block below the genesis.
unfoldable pub parent_row : (ℕ → Found) → ℕ → Found
parent_row query zero = no_rows
parent_row query (suc n) = query n

unfoldable pub is_cached : Processor → ℕ → Bool
is_cached p block_num =
    ltb 0 block_num && p.last_block_num == block_num - 1 && not (str_eq p.last_block_hash "")

-- `query` is the `SELECT` on the table `blocks`.
unfoldable pub handle_reorg_read_only :
    {E : Type 0} → Processor → (ℕ → Found) → ℕ → String → Option (Error E)
unfolding reorg_if differs_from parent_row is_cached
handle_reorg_read_only p query block_num parent =
    if p.chain_id == 31337
    then none
    else (if is_cached p block_num
        then reorg_if (not (str_eq p.last_block_hash parent)) block_num
        else reorg_if (differs_from parent (parent_row query block_num)) block_num)

unfoldable pub update_reorg_cache : Processor → ℕ → String → Processor
update_reorg_cache p block_num hash =
    let skips = p.chain_id == 31337 in
    record p {
      last_block_num = if skips then p.last_block_num else block_num;
      last_block_hash = if skips then p.last_block_hash else hash;
    }

-- The block of an element of a batch, unless its fetch failed.
unfoldable pub block_of : {E : Type 0} → BlockData E → Option Block
block_of d = elim d.err [ some e ↦ none | none ↦ d.block ]

module _ (codec : Codec) where
  unfoldable pub block_row : Block → BlockRow
  block_row b = record {
    number = b.number;
    hash = codec.hash_hex b.hash;
    parent_hash = codec.hash_hex b.parent_hash;
    timestamp = b.time;
    gas_limit = b.gas_limit;
    gas_used = b.gas_used;
    base_fee_per_gas = b.base_fee;
    transaction_count = length b.transactions;
  }

  -- `now` is `time.Now().UnixNano()`.
  unfoldable pub persist_task : ℕ → Block → List Transfer → PersistTask BlockRow Transfer
  unfolding block_row
  persist_task now b activities = record {
    height = b.number % 2 ^ 64;
    block = block_row b;
    transfers = activities;
    sequence = now % 2 ^ 63;
  }

  -- `pushEvents`: the hook's events, and what the metrics count between them.
  unfoldable pub push_events : Processor → Block → List Transfer → List GasSpender → List Effect
  push_events p b activities leaderboard =
      if p.has_event_hook
      then block_event b
          ∷ gas_leaderboard leaderboard
          ∷ (if p.has_metrics then record_activity (length activities) ∷ [] else [])
        ++ map transfer_event activities
      else []

  unfoldable pub update_metrics : Processor → Block → List Effect
  update_metrics p b = if p.has_metrics then sync_height b.number ∷ [] else []

  -- The processor, the effects, and the error.
  unfoldable pub process_checked :
      {E : Type 0}
      → World
      → Processor
      → List Log
      → Block
      → Option (Error E)
      → Processor × List Effect × Option (Error E)
  unfolding persist_task push_events update_metrics update_reorg_cache extract_activities
      analyze_gas process_anvil_synthetic
  process_checked w p logs b (some e) = (p, [], some e)
  process_checked w p logs b none =
      let activities =
        process_anvil_synthetic codec w.extra w.amount p.simulator b
          (extract_activities codec b.number p.enricher logs b.transactions) in
      (
        update_reorg_cache p b.number (codec.hash_hex b.hash),
        commit_batch (persist_task w.now b activities)
              ∷ push_events p b activities (analyze_gas codec b.transactions)
            ++ update_metrics p b,
        none,
      )

  unfoldable pub process_present :
      {E : Type 0}
      → (ℕ → Found)
      → World
      → Processor
      → List Log
      → Option Block
      → Processor × List Effect × Option (Error E)
  unfolding process_checked handle_reorg_read_only
  process_present query w p logs none = (p, [], some nil_block)
  process_present query w p logs (some b) =
      process_checked w p logs b
        (handle_reorg_read_only p query b.number (codec.hash_hex b.parent_hash))

  unfoldable pub process_block :
      {E : Type 0}
      → (ℕ → Found)
      → World
      → Processor
      → BlockData E
      → Processor × List Effect × Option (Error E)
  unfolding process_present
  process_block query w p d = elim d.err [
    | some e ↦ (p, [], some (fetch_error e))
    | none ↦ process_present query w p d.logs d.block
  ]

  unfoldable pub batch_fetched : ℕ → (ℕ → ℕ) → Processor → List Log → Option Block → List Effect
  unfolding persist_task push_events batch_activities process_batch_synthetic
  batch_fetched chain_id now p logs none = []
  batch_fetched chain_id now p logs (some b) =
      let activities =
        process_batch_synthetic codec chain_id p.simulator b
          (batch_activities codec b.number p.enricher logs b.transactions) in
      commit_batch (persist_task (now b.number) b activities) ∷ push_events p b activities []

  -- The body of the loop of `ProcessBatch`: a block that was not fetched is left out.
  unfoldable pub batch_block : {E : Type 0} → ℕ → (ℕ → ℕ) → Processor → BlockData E → List Effect
  unfolding batch_fetched block_of
  batch_block chain_id now p d = batch_fetched chain_id now p d.logs (block_of d)

-- The height that `updateBatchMetrics` reads off the last element.
unfoldable pub number_of_last : {E : Type 0} → List (BlockData E) → Option ℕ
number_of_last [] = none
number_of_last (d ∷ []) = elim d.block [ some b ↦ some b.number | none ↦ d.number ]
number_of_last (d ∷ e ∷ ds) = number_of_last (e ∷ ds)

unfoldable pub height_report : Option ℕ → List Effect
height_report none = []
height_report (some n) = sync_height n ∷ []

unfoldable pub update_batch_metrics : {E : Type 0} → Processor → List (BlockData E) → List Effect
unfolding number_of_last height_report
update_batch_metrics p ds = if p.has_metrics then height_report (number_of_last ds) else []

unfoldable pub batch_loop :
    {E : Type 0} → Codec → ℕ → (ℕ → ℕ) → Processor → List (BlockData E) → List Effect
unfolding batch_block
batch_loop codec chain_id now p [] = []
batch_loop codec chain_id now p (d ∷ ds) =
    batch_block codec chain_id now p d ++ batch_loop codec chain_id now p ds

unfoldable pub process_batch :
    {E : Type 0} → Codec → ℕ → (ℕ → ℕ) → Processor → List (BlockData E) → List Effect
unfolding batch_loop update_batch_metrics
process_batch codec chain_id now p ds =
    batch_loop codec chain_id now p ds ++ update_batch_metrics p ds
