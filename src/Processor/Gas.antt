-- ===== src/Processor/Gas.antt =====
-- processor_block_part1.go: `AnalyzeGas`, the receivers whose transactions have the most gas. The
-- total fee is kept in wei: its rendering in ether is left out. Go visits the map in any order and
-- sorts without stability, so receivers of equal gas may come in another order than here.
pub mod Top
use Prim.Native.String.{String}
use text.Mathlib.Text.{◌==◌ as str_eq}
use web3_indexer_go.Base.{
  ℕ, ◌+◌, ◌*◌, ◌%◌, ◌^◌, Bool, true, false, List, [], ◌∷◌, Option, none, some, ltb, if◌then◌else◌,
  take, to_lower,
}
use web3_indexer_go.Processor.Types.{Transaction, Codec}
use web3_indexer_go.Processor.Activity.{get_address_label}

pub record GasSpender : Type 0 where
  pub address : String
  pub label : String
  pub total_gas : ℕ
  pub total_fee : ℕ

-- A transaction's receiver in the table, whose totals grow.
unfoldable pub spend : String → ℕ → ℕ → List GasSpender → List GasSpender
unfolding get_address_label
spend to gas fee [] =
    record { address = to; label = get_address_label to; total_gas = gas; total_fee = fee } ∷ []
spend to gas fee (s ∷ spenders) =
    let rest = spend to gas fee spenders in
    if str_eq s.address to
    then record s { total_gas = (s.total_gas + gas) % 2 ^ 64; total_fee = s.total_fee + fee }
      ∷ spenders
    else s ∷ rest

unfoldable pub receiver : Codec → Transaction → String
receiver codec tx = elim tx.to [
  | none ↦ "0xcontract_creation"
  | some a ↦ to_lower (codec.address_hex a)
]

unfoldable pub spend_all : Codec → List Transaction → List GasSpender → List GasSpender
unfolding spend receiver
spend_all codec [] spenders = spenders
spend_all codec (tx ∷ txs) spenders =
    spend_all codec txs (spend (receiver codec tx) tx.gas (tx.gas * tx.gas_price) spenders)

-- `sort.Slice` by descending gas.
unfoldable pub insert_spender : GasSpender → List GasSpender → List GasSpender
insert_spender s [] = s ∷ []
insert_spender s (t ∷ ts) =
    let rest = insert_spender s ts in if ltb s.total_gas t.total_gas then t ∷ rest else s ∷ t ∷ ts

unfoldable pub sort_spenders : List GasSpender → List GasSpender
unfolding insert_spender
sort_spenders [] = []
sort_spenders (s ∷ ss) = insert_spender s (sort_spenders ss)

unfoldable pub analyze_gas : Codec → List Transaction → List GasSpender
unfolding spend_all sort_spenders
analyze_gas codec txs = take 5 (sort_spenders (spend_all codec txs []))
