-- ===== src/RpcPool/Legacy.antt =====
-- internal/engine/rpc_pool_requests.go and rpc_pool_core.go: `RPCClientPool`, the basic pool.
use web3_indexer_go.Base.{
  ℕ, ◌+◌, ◌-◌, ◌%◌, ◌^◌, ◌≡◌, ◌≢◌, Bool, List, [], ◌∷◌, Option, none, some, if◌then◌else◌, arith,
  ltb, ◌==◌,
}

-- `index` is the bit pattern of an int32.
pub record LegacyPool : Type 0 where
  pub size : ℕ
  pub index : ℕ

-- How `p.clients[int(idx)%size]` ends; a negative place panics.
pub data Next : Type 0 where
  no_nodes : Next
  node : ℕ → Next
  panics : Next

unfoldable pub count_dialled : List Bool → ℕ
count_dialled [] = 0
count_dialled (d ∷ ds) = if d then count_dialled ds + 1 else count_dialled ds

-- Which URLs can be dialled; none is the error.
unfoldable pub new_rpc_client_pool : List Bool → Option LegacyPool
unfolding count_dialled
new_rpc_client_pool dials =
    if count_dialled dials == 0 then none else some record { size = count_dialled dials; index = 0 }

-- The remainder has the sign of the index.
unfoldable pub place_of_index : ℕ → ℕ → Next
place_of_index size idx =
    if ltb idx (2 ^ 31)
    then node (idx % size)
    else (if (2 ^ 32 - idx) % size == 0 then node 0 else panics)

unfoldable pub get_next_node : LegacyPool → LegacyPool × Next
unfolding place_of_index
get_next_node p = if p.size == 0 then (p, no_nodes) else (
  record p { index = (p.index + 1) % 2 ^ 32 },
  place_of_index p.size ((p.index + 1) % 2 ^ 32),
)

-- How a request ends; none is the error of the node.
pub data Answer (A : Type 0) : Type 0 where
  answered : Option A → Answer A
  no_rpc_nodes : Answer A
  panicked : Answer A

-- A request is asked of the next node only.
unfoldable pub legacy_answer :
    {A : Type 0} → (ℕ → Option A) → LegacyPool × Next → LegacyPool × Answer A
legacy_answer reply (p, node i) = (p, answered (reply i))
legacy_answer reply (p, no_nodes) = (p, no_rpc_nodes)
legacy_answer reply (p, panics) = (p, panicked)

unfoldable pub legacy_request : {A : Type 0} → (ℕ → Option A) → LegacyPool → LegacyPool × Answer A
unfolding legacy_answer get_next_node
legacy_request reply p = legacy_answer reply (get_next_node p)

-- The request after 2 ^ 31 - 1 others panics, unless the number of nodes divides 2 ^ 31.
index_overflows :
    (p : LegacyPool)
    → p.index ≡ 2 ^ 31 - 1
    → p.size ≢ 0
    → 2 ^ 31 % p.size ≢ 0
    → (get_next_node p).1 ≡ panics
unfolding get_next_node place_of_index
index_overflows p i s d = ground (arith, i, s, d)
