-- ===== src/Processor/Reorg.antt =====
-- processor_reorg.go: the search for the common ancestor and the rollback to it. `chain n` is the
-- hash text of the block that the RPC client returns at height `n`, none an error.
pub mod Ancestor
pub mod Rollback
use Prim.Native.String.{String}
use web3_indexer_go.Base.{
  ℕ, zero, suc, ◌-◌, ◌≤◌, Bool, true, false, not, List, [], ◌∷◌, ◌++◌, Option, none, some, ltb, leb,
  ◌==◌, if◌then◌else◌, keep, equal_fold,
}

-- The tables `blocks`, by number, and `sync_checkpoints`, by chain id.
pub record Db : Type 0 where
  pub blocks : List (ℕ × String)
  pub checkpoints : List (ℕ × ℕ)

pub data Found : Type 0 where
  row : String → Found
  no_rows : Found
  query_failed : Found

module _ {ℓ} {V : Type ℓ} where
  unfoldable pub find_row : ℕ → List (ℕ × V) → Option V
  find_row k [] = none
  find_row k ((n, v) ∷ rows) = if n == k then some v else find_row k rows

  -- `INSERT ... ON CONFLICT DO UPDATE`.
  unfoldable pub upsert : ℕ → V → List (ℕ × V) → List (ℕ × V)
  upsert k v [] = (k, v) ∷ []
  upsert k v ((n, w) ∷ rows) = if n == k then (k, v) ∷ rows else (n, w) ∷ upsert k v rows

-- `SELECT hash FROM blocks WHERE number = $1`; `broken n` is a query that fails.
unfoldable pub found_in : Option String → Found
found_in none = no_rows
found_in (some h) = row h

unfoldable pub select_hash : (ℕ → Bool) → Db → ℕ → Found
unfolding found_in find_row
select_hash broken db n = if broken n then query_failed else found_in (find_row n db.blocks)

pub data Search : Type 0 where
  ancestor : ℕ → String → List ℕ → Search
  rpc_failed : ℕ → Search
  db_failed : ℕ → Search
  not_found : Search

-- One height; `again` goes on one lower.
unfoldable pub visit : (List ℕ → Search) → ℕ → List ℕ → Option String → Found → Search
visit again k to_delete none _ = rpc_failed k
visit again k to_delete (some h) no_rows = again (to_delete ++ k ∷ [])
visit again k to_delete (some h) query_failed = db_failed k
visit again k to_delete (some h) (row local) =
    if equal_fold local h then ancestor k local to_delete else again (to_delete ++ k ∷ [])

module _ (chain : ℕ → Option String) (query : ℕ → Found) where
  -- The loop at `current`, which stops at zero and after 1000 heights.
  unfoldable pub search_loop : ℕ → ℕ → List ℕ → Search
  unfolding visit
  search_loop block_num zero to_delete = not_found
  search_loop block_num (suc n) to_delete = elim (leb (block_num - suc n) 1000) [
    | false ↦ not_found
    | true ↦ visit (search_loop block_num n) (suc n) to_delete (chain (suc n)) (query (suc n))
  ]

  unfoldable pub find_common_ancestor : ℕ → Search
  unfolding search_loop
  find_common_ancestor block_num = search_loop block_num block_num []

-- The loop that finds the least height.
unfoldable pub least : ℕ → List ℕ → ℕ
least m [] = m
least m (n ∷ ns) = least (if ltb n m then n else m) ns

unfoldable pub delete_from : List ℕ → Db → Db
unfolding least
delete_from [] db = db
delete_from (n ∷ ns) db = record db {
  blocks = keep (λ (r : ℕ × String). not (leb (least n (n ∷ ns)) r.0)) db.blocks;
}

-- Whether the statements of the transaction succeed.
pub record Transaction : Type 0 where
  pub begins : Bool
  pub deletes : Bool
  pub updates : Bool
  pub commits : Bool

pub data Handled : Type 0 where
  resumed_at : ℕ → Handled
  search_failed : Search → Handled
  transaction_failed : Handled

-- The checkpoint's chain id is the literal 1.
unfoldable pub roll_back : ℕ → List ℕ → Db → Db
unfolding upsert
roll_back k to_delete db =
    let rest = delete_from to_delete db in record rest { checkpoints = upsert 1 k rest.checkpoints }

unfoldable pub has_any : List ℕ → Bool
has_any [] = false
has_any (n ∷ ns) = true

unfoldable pub succeeds : Transaction → List ℕ → Bool
unfolding has_any
succeeds t to_delete =
    if t.begins
    then (if has_any to_delete
        then (if t.deletes then (if t.updates then t.commits else false) else false)
        else (if t.updates then t.commits else false))
    else false

-- The database, the cursor that is dispatched with `CmdResetCursor`, and what is returned.
unfoldable pub after_search : Transaction → Db → Search → Db × Option ℕ × Handled
after_search t db (ancestor k h to_delete) =
    if succeeds t to_delete
    then (roll_back k to_delete db, some k, resumed_at k)
    else (db, none, transaction_failed)
after_search t db s = (db, none, search_failed s)

unfoldable pub handle_deep_reorg :
    (ℕ → Option String) → (ℕ → Bool) → Transaction → Db → ℕ → Db × Option ℕ × Handled
unfolding after_search find_common_ancestor select_hash
handle_deep_reorg chain broken t db block_num =
    after_search t db (find_common_ancestor chain (select_hash broken db) block_num)
