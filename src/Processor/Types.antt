-- ===== src/Processor/Types.antt =====
-- What the processor reads and writes: go-ethereum's logs, transactions and blocks, and the rows of
-- internal/models. Topics and addresses are numbers; texts are ASCII.
use Prim.Native.String.{String}
use web3_indexer_go.Base.{ℕ, List, Option}

pub record Log : Type 0 where
  pub topics : List ℕ
  -- the bytes
  pub log_data : List ℕ
  pub address : ℕ
  pub block_number : ℕ
  pub tx_hash : ℕ
  pub index : ℕ

-- `sender` is the answer of `types.Sender`, none an error; `to` is none for a new contract.
pub record Transaction : Type 0 where
  pub hash : ℕ
  pub sender : Option ℕ
  pub to : Option ℕ
  pub value : ℕ
  pub gas : ℕ
  pub gas_price : ℕ

pub record Block : Type 0 where
  pub number : ℕ
  pub hash : ℕ
  pub parent_hash : ℕ
  pub time : ℕ
  pub gas_limit : ℕ
  pub gas_used : ℕ
  pub base_fee : Option ℕ
  pub transactions : List Transaction

-- `models.Transfer` and `models.Block`.
pub record Transfer : Type 0 where
  pub block_number : ℕ
  pub tx_hash : String
  pub log_index : ℕ
  pub from : String
  pub to : String
  pub token_address : String
  pub symbol : String
  pub type : String
  pub amount : ℕ

pub record BlockRow : Type 0 where
  pub number : ℕ
  pub hash : String
  pub parent_hash : String
  pub timestamp : ℕ
  pub gas_limit : ℕ
  pub gas_used : ℕ
  pub base_fee_per_gas : Option ℕ
  pub transaction_count : ℕ

-- go-ethereum's `Hex` of an address and of a hash, and `HexToAddress`.
pub record Codec : Type 0 where
  pub address_hex : ℕ → String
  pub hash_hex : ℕ → String
  pub hex_to_address : String → ℕ
