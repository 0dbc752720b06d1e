-- ===== src/Processor/Activity.antt =====
-- processor_transfer.go, labels.go and signatures.go, and the detection of activities of
-- processor_block_part1.go: from a block's logs and transactions to the transfers that are stored.
use Prim.Native.Nat.{min}
use Prim.Native.String.{String, slice, ◌++◌ as join}
use text.Mathlib.Text.{◌==◌ as str_eq}
use web3_indexer_go.Base.{
  ℕ, ◌+◌, ◌*◌, ◌-◌, ◌%◌, ◌^◌, List, [], ◌∷◌, Option, none, some, ◌==◌, if◌then◌else◌, to_lower,
  equal_fold,
}
use web3_indexer_go.Processor.Types.{Log, Transfer, Codec}

abbrev transfer_event_hash : ℕ
transfer_event_hash = 0xddf252ad1be2c89b69c2b068fc378daa952ba7f163c4a11628f5514cfc0afda6

abbrev approval_event_hash : ℕ
approval_event_hash = 0x8c5be1e5ebec7d5bd14f71427d1e84f3dd0314c0f7b2291e5b200ac8c7c3b925

abbrev swap_event_hash : ℕ
swap_event_hash = 0xc42079f94a6350d7e5735f2a1538197108a858e5111b9ad0a72f5db98e4c0388

abbrev mint_event_hash : ℕ
mint_event_hash = 0x0f6711612c5b94d76f9d34343434343434343434343434343434343434343434

abbrev pub zero_address : String
zero_address = "0x0000000000000000000000000000000000000000"

-- The keys of the map differ, so the order in which Go visits them is of no consequence.
abbrev faucet_labels : List (String × String)
faucet_labels =
    ("0x6Cc9397c3B38739daCbfaA18E600263a1174457D", "Alchemy Faucet")
    ∷ ("0x8ad9277301013d084931fc5ca31787b122fca66", "Infura Faucet")
    ∷ ("0x4b78662286D9D99772a93c091910609614444444", "RockX Faucet")
    ∷ ("0x2e6B6A8625686868686868686868686868686868", "Google Faucet")
    ∷ []

unfoldable pub label_in : String → List (String × String) → String
label_in addr [] = ""
label_in addr ((k, v) ∷ labels) = if equal_fold k addr then v else label_in addr labels

unfoldable pub get_address_label : String → String
unfolding label_in
get_address_label addr = label_in addr faucet_labels

abbrev token_map : List (String × String)
token_map =
    ("0x1c7d4b196cb0c7b01d743fbc6116a902379c7238", "USDC")
    ∷ ("0xff34b3d4aee8ddcd6f9afffb6fe49bd371b8a357", "DAI")
    ∷ ("0x7b79995e5f793a07bc00c21412e50ecae098e7f9", "WETH")
    ∷ ("0xa3382dffca847b84592c05ab05937a1a38623bc", "UNI")
    ∷ ("0x4200000000000000000000000000000000000006", "WETH")
    ∷ ("0x7af963cf6d228e964f296a96f3ad97a1ee1bb303", "LINK")
    ∷ ("0x0000000000000000000000000000000000000000", "ETH")
    ∷ []

unfoldable pub symbol_in : String → List (String × String) → String
symbol_in addr [] = ""
symbol_in addr ((k, v) ∷ symbols) = if str_eq k addr then v else symbol_in addr symbols

unfoldable pub get_token_symbol : Codec → ℕ → String
unfolding symbol_in
get_token_symbol codec address = symbol_in (to_lower (codec.address_hex address)) token_map

-- `NewUint256FromBigInt` of a number that is not negative.
unfoldable pub new_uint256_from_big_int : ℕ → ℕ
new_uint256_from_big_int b = min b (2 ^ 256 - 1)

-- `big.Int.SetBytes`, the most significant byte first.
unfoldable pub set_bytes : ℕ → List ℕ → ℕ
set_bytes acc [] = acc
set_bytes acc (b ∷ bytes) = set_bytes (acc * 256 + b) bytes

-- What the `switch` assigns to `activityType`, `from`, `to` and `amount`.
pub record Parties : Type 0 where
  pub type : String
  pub from : String
  pub to : String
  pub amount : ℕ

module _ (codec : Codec) where
  -- `common.BytesToAddress(topic.Bytes()).Hex()`, the last 20 bytes.
  unfoldable pub topic_address : ℕ → String
  topic_address topic = codec.address_hex (topic % 2 ^ 160)

  unfoldable pub two_parties : String → List ℕ → Log → Parties
  unfolding topic_address new_uint256_from_big_int set_bytes
  two_parties type (a ∷ b ∷ rest) log = record {
    type = type;
    from = topic_address a;
    to = topic_address b;
    amount = new_uint256_from_big_int (set_bytes 0 log.log_data);
  }
  two_parties type _ log = record {
    type = type;
    from = "";
    to = "";
    amount = new_uint256_from_big_int (set_bytes 0 log.log_data);
  }

  unfoldable pub minted_to : List ℕ → String
  unfolding topic_address
  minted_to [] = ""
  minted_to (a ∷ rest) = topic_address a

  unfoldable pub parties_of : ℕ → List ℕ → Log → Parties
  unfolding two_parties minted_to new_uint256_from_big_int set_bytes
  parties_of event rest log =
      if event == transfer_event_hash
      then two_parties "TRANSFER" rest log
      else (if event == swap_event_hash
          then two_parties "SWAP" rest log
          else (if event == approval_event_hash
              then two_parties "APPROVE" rest log
              else (if event == mint_event_hash
                  then record {
                    type = "MINT";
                    from = zero_address;
                    to = minted_to rest;
                    amount = new_uint256_from_big_int (set_bytes 0 log.log_data);
                  }
                  else record {
                    type = "CONTRACT_EVENT";
                    from = codec.address_hex log.address;
                    to = "Multiple";
                    amount = 0;
                  })))

  -- The enricher's `GetSymbol`, where there is an enricher.
  unfoldable pub enriched : Option (ℕ → String) → String → String
  enriched none token_address = ""
  enriched (some get_symbol) token_address = get_symbol (codec.hex_to_address token_address)

  -- The symbol: the label of a known sender, the static one, the enricher's, or the short address.
  unfoldable pub symbol_of : Option (ℕ → String) → String → ℕ → String
  unfolding enriched get_token_symbol
  symbol_of enricher label address =
      let token_address = to_lower (codec.address_hex address) in
      let static = get_token_symbol codec address in
      let symbol =
        if str_eq label ""
        then (if str_eq static "" then enriched enricher token_address else static)
        else label in
      if str_eq symbol "" then join (slice token_address 0 10) "..." else symbol

  unfoldable pub activity_of : Option (ℕ → String) → Log → Parties → Transfer
  unfolding symbol_of get_address_label
  activity_of enricher log p =
      let label = get_address_label (to_lower p.from) in
      record {
        block_number = log.block_number;
        tx_hash = codec.hash_hex log.tx_hash;
        log_index = log.index;
        from = to_lower p.from;
        to = to_lower p.to;
        token_address = to_lower (codec.address_hex log.address);
        symbol = symbol_of enricher label log.address;
        type = if str_eq label "" then p.type else "FAUCET_CLAIM";
        amount = p.amount;
      }

  unfoldable pub process_log : Option (ℕ → String) → Log → Option Transfer
  unfolding activity_of parties_of
  process_log enricher log = elim log.topics [
    | [] ↦ none
    | event ∷ rest ↦ some (activity_of enricher log (parties_of event rest log))
  ]
