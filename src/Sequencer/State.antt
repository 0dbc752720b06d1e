-- ===== src/Sequencer/State.antt =====
-- The sequencer's data. `Block`, `Log` and `Err` stand for go-ethereum's blocks and logs and for
-- error values. What the processor, the RPC client, the clock and the reorg channel answer is an
-- arbitrary function of the calls made so far, which `history` records, newest first.
use web3_indexer_go.Base.{ℕ, Bool, List, ◌∷◌, Option, none, some}
use web3_indexer_go.Fetcher.{Fetcher}

-- A nil pointer or error is `none`.
pub record BlockData (Block Log Err : Type 0) : Type 0 where
  pub number : Option ℕ
  pub range_end : Option ℕ
  pub block : Option Block
  pub err : Option Err
  pub logs : List Log

-- The error of `ProcessBlockWithRetry`: nil, a `ReorgError`, or any other.
pub data Outcome (Err : Type 0) : Type 0 where
  processed : Outcome Err
  reorg : Outcome Err
  rejected : Err → Outcome Err

-- The calls that leave the sequencer, and the ticks of its stall timer.
pub data Event (Block Log Err : Type 0) : Type 0 where
  process_block : BlockData Block Log Err → Outcome Err → Event Block Log Err
  process_batch : List (BlockData Block Log Err) → Option Err → Event Block Log Err
  fetch_block : ℕ → Event Block Log Err
  fetch_logs : ℕ → Event Block Log Err
  send_reorg : ℕ → Event Block Log Err
  schedule : ℕ → ℕ → Event Block Log Err
  tick : Event Block Log Err

abbrev pub History : Type 0 → Type 0 → Type 0 → Type 0
History Block Log Err = List (Event Block Log Err)

-- `client` says whether `GetRPCClient` is not nil; `none` of an RPC call is its error;
-- `reorg_sent` says whether the send on the reorg channel wins over the end of the context.
pub record Env (Block Log Err : Type 0) : Type 0 where
  pub number_of : Block → ℕ
  pub now : History Block Log Err → ℕ
  pub process : History Block Log Err → BlockData Block Log Err → Outcome Err
  pub process_all : History Block Log Err → List (BlockData Block Log Err) → Option Err
  pub client : Bool
  pub block_by_number : History Block Log Err → ℕ → Option Block
  pub filter_logs : History Block Log Err → ℕ → Option (List Log)
  pub reorg_sent : History Block Log Err → Bool

-- Times are nanoseconds.
pub record Sequencer (Block Log Err : Type 0) : Type 0 where
  pub expected_block : ℕ
  pub buffer : List (ℕ × BlockData Block Log Err)
  pub fetcher : Option Fetcher
  pub has_reorg_ch : Bool
  pub chain_id : ℕ
  pub last_progress_at : ℕ
  pub gap_fill_count : ℕ
  pub history : History Block Log Err

pub data Error (Err : Type 0) : Type 0 where
  processor_error : Err → Error Err
  reorg_need_refetch : Error Err
  context_done : Error Err

-- How a method ends; `panicked` is a nil dereference.
pub data Result (Err : Type 0) : Type 0 where
  done : Result Err
  failed : Error Err → Result Err
  panicked : Result Err
  out_of_fuel : Result Err

module _ {Block Log Err : Type 0} where
  abbrev pub log : Sequencer Block Log Err → Event Block Log Err → Sequencer Block Log Err
  log s e = record s { history = e ∷ s.history }

  -- `getBlockNum`: the number first, else that of the block.
  unfoldable pub get_block_num : Env Block Log Err → BlockData Block Log Err → Option ℕ
  get_block_num env d = elim d.number [
    | some n ↦ some n
    | none ↦ elim d.block [ some b ↦ some (env.number_of b) | none ↦ none ]
  ]
