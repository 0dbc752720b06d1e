-- ===== src/Consistency.antt =====
-- internal/engine/consistency.go: the linearity check, which prunes what the database has beyond the
-- chain and in the demo mode leaps over a large gap. Heights are not negative and below 2 ^ 63.
pub mod Linearity
mod Tests
use web3_indexer_go.Base.{
  ℕ, ◌+◌, ◌-◌, Bool, true, false, ◌&&◌, List, [], ◌∷◌, Option, none, some, ltb, if◌then◌else◌, keep,
  map, not,
}
use web3_indexer_go.Orchestrator.State.{Orchestrator}
use web3_indexer_go.Orchestrator.Cursors.{force_set_cursors}

-- The numbers in the tables `blocks` and `transfers`, the checkpoints of all chains and the
-- processed block of `sync_status`.
pub record Tables : Type 0 where
  pub blocks : List ℕ
  pub transfers : List ℕ
  pub checkpoints : List (ℕ × ℕ)
  pub last_processed_block : ℕ

-- `SELECT COALESCE(MAX(number), 0) FROM blocks`.
unfoldable pub get_max_stored_block : List ℕ → ℕ
get_max_stored_block [] = 0
get_max_stored_block (n ∷ ns) = let rest = get_max_stored_block ns in if ltb rest n then n else rest

-- `UPDATE sync_checkpoints` has no condition: it sets every chain's row.
unfoldable pub set_checkpoints : ℕ → List (ℕ × ℕ) → List (ℕ × ℕ)
set_checkpoints height [] = []
set_checkpoints height ((c, h) ∷ rows) = (c, height) ∷ set_checkpoints height rows

-- The statements of a transaction that commits; the Boolean is whether it does.
unfoldable pub update_sync_cursor : Bool → ℕ → Tables → Option Tables
unfolding set_checkpoints
update_sync_cursor commits height t =
    if commits
    then some (record t {
      checkpoints = set_checkpoints height t.checkpoints;
      last_processed_block = height;
    })
    else none

unfoldable pub prune_future_data : Bool → ℕ → Tables → Option Tables
unfolding set_checkpoints
prune_future_data commits chain_head t =
    if commits
    then some (record t {
      transfers = keep (λ n. not (ltb chain_head n)) t.transfers;
      blocks = keep (λ n. not (ltb chain_head n)) t.blocks;
      checkpoints = set_checkpoints chain_head t.checkpoints;
      last_processed_block = chain_head;
    })
    else none

pub data Outcome : Type 0 where
  aligned : Outcome
  no_chain_height : Outcome
  no_db_height : Outcome
  pruning_failed : Outcome
  leap_failed : Outcome
  -- a gap above 100000 blocks panics
  reset_required : Outcome

-- The RPC pool's and the database's answers: whether the height could be read, and whether the
-- transactions commit.
pub record Answers : Type 0 where
  pub chain_head : Option ℕ
  pub db_readable : Bool
  pub prunes : Bool
  pub leaps : Bool

module _ {F L B T : Type 0} where
  unfoldable pub after_leap :
      Option Tables
      → ℕ
      → ℕ
      → Tables
      → Orchestrator F L B T
      → Tables × Orchestrator F L B T × Outcome
  unfolding force_set_cursors
  after_leap none chain_head gap t o = (t, o, leap_failed)
  after_leap (some t') chain_head gap t o =
      (t', force_set_cursors (chain_head - 1) o, if ltb 100000 gap then reset_required else aligned)

  -- The gap is that to the height that was read before the pruning.
  unfoldable pub leap :
      Bool
      → Answers
      → ℕ
      → ℕ
      → Tables
      → Orchestrator F L B T
      → Tables × Orchestrator F L B T × Outcome
  unfolding after_leap update_sync_cursor
  leap demo_mode a chain_head db_max t o =
      if demo_mode && ltb (db_max + 1000) chain_head
      then after_leap (update_sync_cursor a.leaps (chain_head - 1) t) chain_head
          (chain_head - db_max) t o
      else (t, o, aligned)

  unfoldable pub after_prune :
      Bool
      → Answers
      → ℕ
      → ℕ
      → Option Tables
      → Tables
      → Orchestrator F L B T
      → Tables × Orchestrator F L B T × Outcome
  unfolding leap
  after_prune demo_mode a chain_head db_max none t o = (t, o, pruning_failed)
  after_prune demo_mode a chain_head db_max (some t') t o = leap demo_mode a chain_head db_max t' o

  unfoldable pub with_chain_head :
      Bool
      → Answers
      → Option ℕ
      → Tables
      → Orchestrator F L B T
      → Tables × Orchestrator F L B T × Outcome
  unfolding after_prune leap prune_future_data get_max_stored_block
  with_chain_head demo_mode a none t o = (t, o, no_chain_height)
  with_chain_head demo_mode a (some chain_head) t o =
      let db_max = get_max_stored_block t.blocks in
      if a.db_readable
      then (if ltb chain_head db_max
          then after_prune demo_mode a chain_head db_max (prune_future_data a.prunes chain_head t) t
              o
          else leap demo_mode a chain_head db_max t o)
      else (t, o, no_db_height)

  unfoldable pub perform_linearity_check :
      Bool → Answers → Tables → Orchestrator F L B T → Tables × Orchestrator F L B T × Outcome
  unfolding with_chain_head
  perform_linearity_check demo_mode a t o = with_chain_head demo_mode a a.chain_head t o
