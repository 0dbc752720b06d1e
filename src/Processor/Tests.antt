-- ===== src/Processor/Tests.antt =====
-- The processor on concrete blocks and tables, and the theorems at concrete inputs.
use Prim.Native.String.{String}
use text.Mathlib.Text.{◌==◌ as str_eq}
use web3_indexer_go.Base.{
  ℕ, ◌≤◌, ◌≡◌, ◌≢◌, ◌↔◌, refl, true, false, Bool, ◌==◌, if◌then◌else◌, Option, none, some, arith,
  All, length, [], ◌∷◌, ◌++◌, to_lower, equal_fold, str_eq→ne, if_intro,
}
use web3_indexer_go.HeightOracle.{global_height_oracle}
use web3_indexer_go.Processor.Checkpoint.{
  update_checkpoint, after_update, update_checkpoint_in_tx, update_checkpoint-find_row,
}
use web3_indexer_go.Processor.Types.{Log, Transaction, Block, Codec}
use web3_indexer_go.Processor.Activity.{get_address_label, label_in}
use web3_indexer_go.Processor.Extract.{extract_activities, batch_activities, sender_text}
use web3_indexer_go.Processor.Extract.Keys.{IsUnique, indices, activities-IsUnique}
use web3_indexer_go.Processor.Extract.Alike.{batch-extract, IsFoundIn}
use web3_indexer_go.Processor.Extract.Sources.{HasSource, extract_activities-sources}
use web3_indexer_go.Processor.Gas.{analyze_gas, receiver}
use web3_indexer_go.Processor.Gas.Top.{
  IsDescending, occurs, gas_in, omitted, spent, analyze_gas-IsDescending,
}
use web3_indexer_go.Processor.Block.{BlockData, Processor, World}
use web3_indexer_go.Processor.Block.Linked.{
  committed, Follows, process_blocks, process_blocks-Follows,
}
use web3_indexer_go.Processor.Retry.{Attempt, process_block_with_retry}
use web3_indexer_go.Processor.Retry.Attempts.{IsSettled, process_block_with_retry-IsSettled}
use web3_indexer_go.Processor.Reorg.{
  Db, no_rows, find_row, select_hash, found_in, ancestor, find_common_ancestor, after_search,
  search_loop, visit, succeeds, has_any, roll_back, delete_from, least, upsert, handle_deep_reorg,
  resumed_at,
}
use web3_indexer_go.Processor.Reorg.Ancestor.{IsAncestor, span, find_common_ancestor_iff}
use web3_indexer_go.Processor.Reorg.Rollback.{IsOutcome, all_good, handle_deep_reorg-IsOutcome}

-- Texts that stand for the hex forms.
abbrev codec : Codec
codec = record {
  address_hex = λ a. if a == 1 then "0xAA" else "0x6cc9397c3b38739dacbfaa18e600263a1174457d";
  hash_hex = λ h.
      if h == 0 then "0x00" else (if h == 1 then "0x01" else (if h == 2 then "0x02" else "0x03"));
  hex_to_address = λ s. 0;
}

abbrev payment : Transaction
payment = record { hash = 3; sender = some 1; to = some 1; value = 5; gas = 21000; gas_price = 2 }

abbrev creation : Transaction
creation = record { hash = 2; sender = none; to = none; value = 0; gas = 90000; gas_price = 1 }

abbrev claim : Transaction
claim = record { hash = 1; sender = some 2; to = some 1; value = 5; gas = 21000; gas_price = 2 }

abbrev log : Log
log = record {
  topics = 7 ∷ [];
  log_data = [];
  address = 1;
  block_number = 11;
  tx_hash = 1;
  index = 4;
}

abbrev block : Block
block = record {
  number = 11;
  hash = 2;
  parent_hash = 1;
  time = 0;
  gas_limit = 0;
  gas_used = 0;
  base_fee = none;
  transactions = payment ∷ creation ∷ [];
}

abbrev next_block : Block
next_block = record block { number = 12; hash = 3; parent_hash = 2; transactions = [] }

abbrev data_of : Block → BlockData ℕ
data_of b = record { number = some b.number; block = some b; err = none; logs = [] }

abbrev unfetched : BlockData ℕ
unfetched = record { number = some 12; block = none; err = some 9; logs = [] }

abbrev processor : Processor
processor = record {
  chain_id = 11155111;
  has_event_hook = true;
  has_metrics = true;
  simulator = record { enable_simulator = false; network_mode = "sepolia" };
  enricher = none;
  last_block_num = 10;
  last_block_hash = "0x01";
}

abbrev world : World
world = record { now = 0; extra = 0; amount = λ i. 0 }

abbrev attempt : Attempt
attempt = record {
  query = λ n. no_rows;
  world = world;
  context_ended = false;
  wait_cut_short = false;
}

faucet_is_known : get_address_label "0x6CC9397C3B38739dacbfaa18e600263a1174457d" ≡ "Alchemy Faucet"
unfolding get_address_label label_in equal_fold to_lower
faucet_is_known = refl

-- Above height 10 the tables hold a fork.
abbrev forked : Db
forked = record {
  blocks = (9, "0x09") ∷ (10, "0xaa") ∷ (11, "0xbb") ∷ (12, "0xcc") ∷ [];
  checkpoints = (1, 12) ∷ (11155111, 12) ∷ [];
}

abbrev chain : ℕ → Option String
chain n = if n == 10 then some "0xAA" else some "0xdd"

abbrev intact : ℕ → Bool
intact n = false

rollback_runs : handle_deep_reorg chain intact all_good forked 12 ≡ (
  record { blocks = (9, "0x09") ∷ (10, "0xaa") ∷ []; checkpoints = (1, 10) ∷ (11155111, 12) ∷ [] },
  some 10,
  resumed_at 10,
)
unfolding handle_deep_reorg after_search find_common_ancestor search_loop visit select_hash found_in
    find_row equal_fold to_lower succeeds has_any roll_back delete_from least upsert
rollback_runs = refl

found : find_common_ancestor chain (select_hash intact forked) 12 ≡ ancestor 10 "0xaa" (span 2 12)
unfolding find_common_ancestor search_loop visit select_hash found_in find_row equal_fold to_lower
found = refl

find_common_ancestor_iff_example :
    IsAncestor chain (select_hash intact forked) 12 10 "0xaa"
    ↔ (find_common_ancestor chain (select_hash intact forked) 12 ≡ ancestor 10 "0xaa" (span 2 12))
find_common_ancestor_iff_example =
    find_common_ancestor_iff chain (select_hash intact forked) 12 10 "0xaa"

handle_deep_reorg-IsOutcome_example :
    IsOutcome chain intact all_good forked 12 11 1
      (handle_deep_reorg chain intact all_good forked 12)
handle_deep_reorg-IsOutcome_example =
    handle_deep_reorg-IsOutcome chain intact all_good forked 12 11 1

activities-IsUnique_example :
    IsUnique (indices (extract_activities codec 11 none (log ∷ []) (payment ∷ creation ∷ [])))
    × IsUnique (indices (batch_activities codec 11 none (log ∷ []) (payment ∷ creation ∷ [])))
activities-IsUnique_example =
    activities-IsUnique codec 11 none (log ∷ []) (payment ∷ creation ∷ []) (tt, tt)
      (omega arith, tt)

batch-extract_example :
    batch_activities codec 11 none (log ∷ []) (payment ∷ creation ∷ [])
    ≡ extract_activities codec 11 none (log ∷ []) (payment ∷ creation ∷ [])
unfolding get_address_label label_in sender_text equal_fold to_lower
batch-extract_example =
    batch-extract codec 11 none (log ∷ []) (payment ∷ creation ∷ []) (refl, (refl, tt))

extract_activities-sources_example :
    let ts = extract_activities codec 11 none (log ∷ []) (creation ∷ payment ∷ claim ∷ []) in
    IsFoundIn codec 11 ts payment
    × All (HasSource codec 11 (log ∷ []) (creation ∷ payment ∷ claim ∷ [])) ts
extract_activities-sources_example =
    extract_activities-sources codec 11 none (log ∷ []) (creation ∷ []) payment (claim ∷ [])
      (omega arith, refl)

analyze_gas-IsDescending_example :
    let ss = analyze_gas codec (payment ∷ creation ∷ claim ∷ []) in
    let rest = omitted codec (payment ∷ creation ∷ claim ∷ []) in
    (length ss ≤ 5)
    × IsDescending (ss ++ rest)
    × (occurs "0xcontract_creation" (ss ++ rest) ≤ 1)
    × (gas_in "0xcontract_creation" (ss ++ rest) ≡ 90000)
    × (spent (ss ++ rest) ≡ 132000)
unfolding receiver to_lower
analyze_gas-IsDescending_example =
    analyze_gas-IsDescending codec (payment ∷ creation ∷ claim ∷ []) "0xcontract_creation"
      (omega arith)

codec_nonempty : (h : ℕ) → codec.hash_hex h ≢ ""
codec_nonempty h = str_eq→ne (codec.hash_hex h) "" (
    if_intro (λ s. str_eq s "" ≡ false) (h == 0) "0x00"
      (if h == 1 then "0x01" else (if h == 2 then "0x02" else "0x03")) refl
      (if_intro (λ s. str_eq s "" ≡ false) (h == 1) "0x01" (if h == 2 then "0x02" else "0x03") refl
        (if_intro (λ s. str_eq s "" ≡ false) (h == 2) "0x02" "0x03" refl refl)))

process_blocks-Follows_example : Follows 11 "0x01" (
    committed
      (process_blocks codec
        (λ i n. no_rows)
        (λ i. world)
        0
        processor
        (data_of block ∷ data_of next_block ∷ [])).1)
process_blocks-Follows_example =
    process_blocks-Follows codec (λ i n. no_rows) (λ i. world) codec_nonempty 0 11 processor
      (data_of block ∷ data_of next_block ∷ []) (omega arith, str_eq→ne "0x01" "" refl, refl)
      ((block, refl, refl), ((next_block, refl, refl), tt))

process_block_with_retry-IsSettled_example :
    IsSettled codec
      (data_of block)
      0
      3
      processor
      (process_block_with_retry codec (λ i. attempt) (data_of block) 3 processor)
process_block_with_retry-IsSettled_example =
    process_block_with_retry-IsSettled codec (data_of block) (λ i. attempt) 3 processor

update_checkpoint-find_row_example :
    find_row 7
      (update_checkpoint true true
        record { checkpoint = true; status = true }
        none
        7
        42
        record { sync_checkpoints = (1, 3) ∷ (7, 5) ∷ []; sync_status = [] }
        global_height_oracle).0.sync_checkpoints
    ≡ some 42
unfolding update_checkpoint after_update update_checkpoint_in_tx
update_checkpoint-find_row_example =
    update_checkpoint-find_row true true record { checkpoint = true; status = true } none 7 42
      record { sync_checkpoints = (1, 3) ∷ (7, 5) ∷ []; sync_status = [] } global_height_oracle refl
