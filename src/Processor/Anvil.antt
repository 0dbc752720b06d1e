-- ===== src/Processor/Anvil.antt =====
-- The made-up transfers of an empty block: `processAnvilSyntheticNoDB` of
-- processor_block_part1.go and `processBatchSynthetic` of processor_batch.go.
use Prim.Native.Char.{code}
use Prim.Native.String.{String}
use text.Mathlib.Text.{◌==◌ as str_eq}
use web3_indexer_go.Base.{
  ℕ, zero, suc, ◌+◌, ◌*◌, ◌%◌, ◌^◌, Bool, true, false, ◌&&◌, ◌||◌, not, List, [], ◌∷◌, ◌++◌, ◌==◌,
  if◌then◌else◌, to_lower, length,
}
use web3_indexer_go.Processor.Types.{Block, Transfer, Codec}
use web3_indexer_go.Processor.Activity.{zero_address, new_uint256_from_big_int, set_bytes}

pub record Simulator : Type 0 where
  pub enable_simulator : Bool
  pub network_mode : String

-- The bytes of an ASCII text.
abbrev bytes_of : String → List ℕ
bytes_of String.[] = []
bytes_of (String.◌∷◌ c s) = code c ∷ bytes_of s

-- Every index below is reduced by the length of its list, so "" is not met.
unfoldable pub element : List String → ℕ → String
element [] i = ""
element (s ∷ ss) zero = s
element (s ∷ ss) (suc i) = element ss i

abbrev accounts : List String
accounts =
    "0xf39Fd6e51aad88F6F4ce6aB8827279cffFb92266" ∷ "0x70997970C51812dc3A010C7d01b50e0d17dc79ee"
    ∷ "0x3C44CdDdB6a900fa2b585dd299e03d12FA4293BC" ∷ "0x90F79bf6EB2c4f870365E785982E1f101E93b906"
    ∷ "0x15d34AAf54267DB7D7c367839AAf71A00a2C6A65" ∷ []

unfoldable pub get_anvil_account : ℕ → String
unfolding element
get_anvil_account index = element accounts (index % 5)

-- `common.BytesToHash`: the last 32 bytes.
unfoldable pub mock_hash : ℕ → List ℕ → ℕ
unfolding set_bytes
mock_hash hash bytes = set_bytes hash bytes % 2 ^ 256

module _ (codec : Codec) where
  unfoldable pub mock_transfer : (ℕ → ℕ) → Block → ℕ → Transfer
  unfolding mock_hash get_anvil_account new_uint256_from_big_int
  mock_transfer amount b i = record {
    block_number = b.number;
    -- the digit of `i`, which is below 5, is the byte 48 + i
    tx_hash = codec.hash_hex (mock_hash b.hash (bytes_of "ANVIL_MOCK_" ++ (48 + i) ∷ []));
    log_index = 99990 + i;
    from = to_lower (get_anvil_account i);
    to = to_lower (get_anvil_account (i + 1));
    token_address = zero_address;
    symbol = "ETH";
    type = "TRANSFER";
    amount = new_uint256_from_big_int (100 + amount i);
  }

  -- The loop from `i`, with `n` rounds left.
  unfoldable pub mock_transfers : (ℕ → ℕ) → Block → ℕ → ℕ → List Transfer
  unfolding mock_transfer
  mock_transfers amount b zero i = []
  mock_transfers amount b (suc n) i = mock_transfer amount b i ∷ mock_transfers amount b n (i + 1)

  unfoldable pub is_empty : List Transfer → Bool
  is_empty [] = true
  is_empty (t ∷ ts) = false

  -- `extra` is `secureIntn(4)` and `amount i` the `secureIntn(1000)` of the `i`-th round.
  unfoldable pub process_anvil_synthetic :
      ℕ → (ℕ → ℕ) → Simulator → Block → List Transfer → List Transfer
  unfolding mock_transfers is_empty
  process_anvil_synthetic extra amount s b activities =
      if not (is_empty activities) || not s.enable_simulator || not (str_eq s.network_mode "anvil")
      then activities
      else activities ++ mock_transfers amount b (2 + extra) 0

abbrev mock_tokens : List String
mock_tokens =
    "0xA0b86991c6218b36c1d19D4a2e9Eb0cE3606eB48" ∷ "0xdAC17F958D2ee523a2206206994597C13D831ec7"
    ∷ "0x2260FAC5E5542a773Aa44fBCfeDf7C193bc2C599" ∷ "0xC02aaA39b223FE8D0A0e5C4F27eAD9083C756Cc2"
    ∷ "0x6B175474E89094C44Da98b954EedeAC495271d0F" ∷ []

abbrev mock_symbols : List String
mock_symbols = "USDC" ∷ "USDT" ∷ "WBTC" ∷ "WETH" ∷ "DAI" ∷ []

abbrev activity_types : List String
activity_types =
    "TRANSFER" ∷ "SWAP" ∷ "MINT" ∷ "FAUCET_CLAIM" ∷ "APPROVE" ∷ "LIQUIDITY" ∷ "BURN" ∷ []

unfoldable pub mock_amount : ℕ → ℕ
mock_amount n =
    let base = n % 1000 in
    if n % 4 == 0 then base * 1000000 else (if n % 4 == 1 then base * 1000000000 else base)

-- `HexToAddress` and `Hex` print the token's address again, up to the case of the letters.
unfoldable pub process_batch_synthetic :
    Codec → ℕ → Simulator → Block → List Transfer → List Transfer
unfolding mock_hash element get_anvil_account mock_amount new_uint256_from_big_int
process_batch_synthetic codec chain_id s b transfers =
    if length transfers == 0 && chain_id == 31337 && s.enable_simulator
    then transfers
      ++ record {
        block_number = b.number;
        tx_hash = codec.hash_hex (mock_hash b.hash (bytes_of "ANVIL_MOCK"));
        log_index = 99999;
        from = to_lower (get_anvil_account b.number);
        to = to_lower (get_anvil_account (b.number + 1));
        token_address =
            to_lower
              (codec.address_hex (codec.hex_to_address (element mock_tokens (b.number % 5))));
        symbol = element mock_symbols (b.number % 5);
        type = element activity_types (b.number % 7);
        amount = new_uint256_from_big_int (mock_amount b.number);
      }
        ∷ []
    else transfers
