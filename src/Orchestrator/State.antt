-- ===== src/Orchestrator/State.antt =====
-- orchestrator_types.go: messages, the coordinator's state, and the orchestrator. Times are
-- nanoseconds. `F` is float64 with the operations used, `L` a log record, `B` and `T` rows.
use Prim.Native.String.{String}
use web3_indexer_go.Base.{ℕ, ◌%◌, Bool, List, Option}
use web3_indexer_go.Fetcher.{Fetcher}
use web3_indexer_go.AsyncWriter.{AsyncWriter, PersistTask}

pub data MsgType : Type 0 where
  update_chain_height commit_batch commit_disk reset_cursor increment_transfers : MsgType
  toggle_eco_mode set_system_state fetch_failed fetch_success notify_fetched : MsgType
  notify_fetch_progress log_event get_status get_snapshot record_user_activity : MsgType

pub data SystemState : Type 0 where
  unknown idle active catching_up stalled healing degraded running optimizing throttled :
      SystemState

-- The dynamic types of `Data interface{}` that the handlers ask for.
pub data Payload (L B T : Type 0) : Type 0 where
  height : ℕ → Payload L B T
  string : String → Payload L B T
  flag : Bool → Payload L B T
  entry : L → Payload L B T
  task : PersistTask B T → Payload L B T
  system_state : SystemState → Payload L B T
  other : Payload L B T

-- `reply` says whether the message has a reply channel.
pub record Message (L B T : Type 0) : Type 0 where
  pub type : MsgType
  pub payload : Payload L B T
  pub reply : Bool
  pub sequence : ℕ

-- The float64 operations of the progress percentage.
pub record Floats (F : Type 0) : Type 0 where
  pub of_height : ℕ → F
  pub divide : F → F → F
  pub times : F → F → F
  pub exceeds : F → F → Bool
  pub hundred : F

pub record CoordinatorState (F L : Type 0) : Type 0 where
  pub latest_height : ℕ
  pub target_height : ℕ
  pub fetched_height : ℕ
  pub synced_cursor : ℕ
  pub transfers : ℕ
  pub is_eco_mode : Bool
  pub progress : F
  pub system_state : SystemState
  pub updated_at : ℕ
  pub last_user_activity : ℕ
  pub safety_buffer : ℕ
  pub success_count : ℕ
  pub jobs_depth : ℕ
  pub results_depth : ℕ
  pub log_entry : Option L

-- `cmd_chan` and `broadcast_ch` hold what waits in the channels, oldest first.
pub record Orchestrator (F L B T : Type 0) : Type 0 where
  pub cmd_chan : List (Message L B T)
  pub state : CoordinatorState F L
  pub snapshot : CoordinatorState F L
  pub msg_seq : ℕ
  pub cancelled : Bool
  pub broadcast_ch : List (CoordinatorState F L)
  pub broadcast_dropped : ℕ
  pub pending_height_update : Option ℕ
  pub last_height_merge_time : ℕ
  pub async_writer : Option (AsyncWriter B T)
  pub fetcher : Option Fetcher

-- uint64 values wrap.
abbrev pub u64 : ℕ → ℕ
u64 n = n % 18446744073709551616
