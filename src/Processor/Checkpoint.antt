-- ===== src/Processor/Checkpoint.antt =====
-- internal/engine/processor_checkpoint.go, on the rows of its two tables, by chain id. Heights are
-- below 2 ^ 63.
use web3_indexer_go.Base.{
  ℕ, ◌-◌, ◌≡◌, refl, Bool, true, false, List, [], ◌∷◌, Option, none, some, if◌then◌else◌, ltb,
  arith,
}
use web3_indexer_go.HeightOracle.{HeightOracle, set_indexed_head}
use web3_indexer_go.Processor.Reorg.{upsert, find_row}

pub record SyncStatus : Type 0 where
  pub last_synced_block : ℕ
  pub latest_block : ℕ
  pub sync_lag : ℕ

pub record CheckpointTables : Type 0 where
  pub sync_checkpoints : List (ℕ × ℕ)
  pub sync_status : List (ℕ × SyncStatus)

-- The metrics' height of the chain, where it is known.
unfoldable pub chain_height : Option ℕ → ℕ → ℕ
chain_height none synced = synced
chain_height (some h) synced = if ltb 0 h then h else synced

-- Whether the two statements succeed.
pub record Statements : Type 0 where
  pub checkpoint : Bool
  pub status : Bool

-- The tables in the transaction, the oracle, and whether it returns nil.
unfoldable pub update_checkpoint_in_tx :
    Statements
    → Option ℕ
    → ℕ
    → ℕ
    → CheckpointTables
    → HeightOracle
    → CheckpointTables × HeightOracle × Bool
unfolding upsert chain_height set_indexed_head
update_checkpoint_in_tx w metrics chain_id block t o =
    if w.checkpoint
    then (
      record {
        sync_checkpoints = upsert chain_id block t.sync_checkpoints;
        sync_status =
            if w.status
            then upsert chain_id
                record {
                  last_synced_block = block;
                  latest_block = chain_height metrics block;
                  sync_lag = chain_height metrics block - block;
                }
                t.sync_status
            else t.sync_status;
      },
      (set_indexed_head block o).0,
      true,
    )
    else (t, o, false)

unfoldable pub after_update :
    Bool
    → CheckpointTables
    → CheckpointTables × HeightOracle × Bool
    → CheckpointTables × HeightOracle × Bool
after_update commits t (u, o, true) = (if commits then u else t, o, commits)
after_update commits t (u, o, false) = (t, o, false)

unfoldable pub update_checkpoint :
    Bool
    → Bool
    → Statements
    → Option ℕ
    → ℕ
    → ℕ
    → CheckpointTables
    → HeightOracle
    → CheckpointTables × HeightOracle × Bool
unfolding after_update update_checkpoint_in_tx
update_checkpoint begins commits w metrics chain_id block t o =
    if begins
    then after_update commits t (update_checkpoint_in_tx w metrics chain_id block t o)
    else (t, o, false)

module _ {ℓ} {V : Type ℓ} where
  pub find_row-upsert :
      (k : ℕ) (v : V) (rows : List (ℕ × V)) → find_row k (upsert k v rows) ≡ some v
  unfolding find_row upsert
  find_row-upsert k v [] = ground arith
  find_row-upsert k v ((n, w) ∷ rows) = ground (arith, find_row-upsert k v rows)

-- When `UpdateCheckpoint` returns nil, the checkpoint of the chain reads back as the block.
pub update_checkpoint-find_row :
    (begins commits : Bool) (w : Statements) (metrics : Option ℕ) (chain_id block : ℕ)
    (t : CheckpointTables) (o : HeightOracle)
    → (update_checkpoint begins commits w metrics chain_id block t o).2 ≡ true
    → find_row chain_id
        (update_checkpoint begins commits w metrics chain_id block t o).0.sync_checkpoints
      ≡ some block
unfolding update_checkpoint after_update update_checkpoint_in_tx
update_checkpoint-find_row begins commits w metrics chain_id block t o h =
    ground (arith, h, find_row-upsert chain_id block t.sync_checkpoints)

-- When the commit fails, the oracle has the new height all the same.
oracle_ahead :
    (metrics : Option ℕ) (chain_id block : ℕ) (t : CheckpointTables) (o : HeightOracle)
    → update_checkpoint true false
        record { checkpoint = true; status = true }
        metrics
        chain_id
        block
        t
        o
      ≡ (t, (set_indexed_head block o).0, false)
unfolding update_checkpoint after_update update_checkpoint_in_tx
oracle_ahead metrics chain_id block t o = refl
