-- ===== src/Processor/Extract.antt =====
-- processor_block_part1.go and processor_batch.go: the activities of a block. What stands for the
-- activities in the code's maps and slices is a list; `txWithRealLogs` is the list of its keys.
pub mod Keys
pub mod Alike
pub mod Sources
use Prim.Native.String.{String}
use text.Mathlib.Text.{◌==◌ as str_eq}
use web3_indexer_go.Base.{
  ℕ, ◌+◌, Bool, true, false, ◌&&◌, ◌||◌, not, List, [], ◌∷◌, ◌++◌, Option, none, some, ltb,
  if◌then◌else◌, to_lower, is_some,
}
use web3_indexer_go.Processor.Types.{Log, Transaction, Block, Transfer, Codec}
use web3_indexer_go.Processor.Activity.{
  zero_address, get_address_label, new_uint256_from_big_int, process_log,
}

-- The activities of the logs.
unfoldable pub log_activities : Codec → Option (ℕ → String) → List Log → List Transfer
unfolding process_log
log_activities codec enricher [] = []
log_activities codec enricher (log ∷ logs) =
    let rest = log_activities codec enricher logs in
    elim (process_log codec enricher log) [ none ↦ rest | some t ↦ t ∷ rest ]

-- Whether a transaction has an activity of a log.
unfoldable pub has_real_log : String → List Transfer → Bool
has_real_log tx_hash [] = false
has_real_log tx_hash (t ∷ activities) = str_eq t.tx_hash tx_hash || has_real_log tx_hash activities

module _ (codec : Codec) (block_num : ℕ) where
  -- `fromAddr`.
  unfoldable pub sender_text : Transaction → String
  sender_text tx = elim tx.sender [ none ↦ "0xunknown" | some a ↦ codec.address_hex a ]

  unfoldable pub receiver_text : Transaction → String
  receiver_text tx = elim tx.to [ none ↦ "0xcontract_creation" | some a ↦ codec.address_hex a ]

  -- A transfer of a whole transaction.
  unfoldable pub synthetic : Transaction → ℕ → String → String → String → Transfer
  unfolding sender_text new_uint256_from_big_int
  synthetic tx idx to symbol type = record {
    block_number = block_num;
    tx_hash = codec.hash_hex tx.hash;
    log_index = idx;
    from = to_lower (sender_text tx);
    to = to;
    token_address = zero_address;
    symbol = symbol;
    type = type;
    amount = new_uint256_from_big_int tx.value;
  }

  unfoldable pub detect_faucet : Transaction → ℕ → Option Transfer
  unfolding get_address_label synthetic receiver_text sender_text
  detect_faucet tx idx =
      let label = get_address_label (sender_text tx) in
      if str_eq label ""
      then none
      else some (synthetic tx idx (to_lower (receiver_text tx)) label "FAUCET_CLAIM")

  unfoldable pub detect_deploy : Transaction → ℕ → Option Transfer
  unfolding synthetic
  detect_deploy tx idx =
      if is_some tx.to then none else some (synthetic tx idx "0xcontract_creation" "EVM" "DEPLOY")

  unfoldable pub detect_eth_transfer : List Transfer → Transaction → ℕ → Option Transfer
  unfolding synthetic receiver_text has_real_log
  detect_eth_transfer real tx idx =
      if not (ltb 0 tx.value) || has_real_log (codec.hash_hex tx.hash) real || not (is_some tx.to)
      then none
      else some (synthetic tx idx (to_lower (receiver_text tx)) "ETH" "ETH_TRANSFER")

  unfoldable pub or_else : Option Transfer → Option Transfer → Option Transfer
  or_else none p = p
  or_else (some t) p = some t

  -- The first detection that answers.
  unfoldable pub detect : List Transfer → Transaction → ℕ → Option Transfer
  unfolding or_else detect_faucet detect_deploy detect_eth_transfer
  detect real tx idx =
      or_else (detect_faucet tx idx)
        (or_else (detect_deploy tx idx) (detect_eth_transfer real tx idx))

  -- The loop over the transactions with a detection and the next `syntheticIdx`.
  unfoldable pub transaction_loop :
      (Transaction → ℕ → Option Transfer) → ℕ → List Transaction → List Transfer
  transaction_loop find idx [] = []
  transaction_loop find idx (tx ∷ txs) = elim (find tx idx) [
    | none ↦ transaction_loop find idx txs
    | some t ↦ t ∷ transaction_loop find (idx + 1) txs
  ]

  unfoldable pub extract_activities :
      Option (ℕ → String) → List Log → List Transaction → List Transfer
  unfolding log_activities transaction_loop detect
  extract_activities enricher logs txs =
      let real = log_activities codec enricher logs in
      real ++ transaction_loop (detect real) 20000 txs

  -- The body of the loop of `processBatchTransactions`.
  unfoldable pub batch_transaction : List Transfer → Transaction → ℕ → Option Transfer
  unfolding synthetic has_real_log
  batch_transaction real tx idx = elim tx.to [
    | none ↦ some (synthetic tx idx "0xcontract_creation" "EVM" "DEPLOY")
    | some a ↦
        if ltb 0 tx.value && not (has_real_log (codec.hash_hex tx.hash) real)
        then some (synthetic tx idx (to_lower (codec.address_hex a)) "ETH" "ETH_TRANSFER")
        else none
  ]

  unfoldable pub batch_activities :
      Option (ℕ → String) → List Log → List Transaction → List Transfer
  unfolding log_activities transaction_loop batch_transaction
  batch_activities enricher logs txs =
      let real = log_activities codec enricher logs in
      real ++ transaction_loop (batch_transaction real) 20000 txs
