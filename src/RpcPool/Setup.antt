-- ===== src/RpcPool/Setup.antt =====
-- internal/engine/rpc_pool_core.go and rpc_pool_requests.go: the construction of the pool, its counts,
-- the client for metadata, and `CallContract`, which does not wait for the nodes' limiters.
use Prim.Native.String.{String}
use web3_indexer_go.Base.{
  contains, ℕ, zero, suc, ◌+◌, ◌<◌, ◌≡◌, Bool, false, ◌&&◌, ◌||◌, not, List, [], ◌∷◌, Option, none,
  some, if◌then◌else◌, length, arith,
}
use web3_indexer_go.RpcPool.{
  RpcNode, RpcPool, Reply, replied, too_many_requests, other_error, cool_down, mark_node_unhealthy,
  increment_request_count, update_at, get_next_healthy_node, Attempt, Answer, no_healthy_nodes,
  limiter_error, all_failed, after_call,
}

unfoldable pub is_local_url : String → Bool
unfolding contains
is_local_url url = contains url "localhost" || (contains url "127.0.0.1" || contains url "anvil")

unfoldable pub is_local : List String → Bool
unfolding is_local_url
is_local [] = false
is_local (u ∷ us) = is_local_url u || is_local us

-- Requests per second; `forced` is `FORCE_RPS`.
unfoldable pub global_rps : Bool → Bool → Bool → ℕ
global_rps forced local testnet =
    if forced then 20 else (if local then 500 else (if testnet then 15 else 20))

-- The nodes of the URLs that can be dialled; the answer is whether the header comes.
unfoldable pub dialled : List (Option Bool) → List RpcNode
dialled [] = []
dialled (none ∷ ds) = dialled ds
dialled (some healthy ∷ ds) =
    record { weight = 1; is_healthy = healthy; last_error = 0; retry_after = 0; fail_count = 0 }
    ∷ dialled ds

unfoldable pub pool_of : Bool → List RpcNode → Option RpcPool
pool_of testnet_mode [] = none
pool_of testnet_mode (n ∷ ns) = some record {
  clients = n ∷ ns;
  request_count = 0;
  is_testnet_mode = testnet_mode;
  current_sync_batch = 0;
}

-- none is the error.
unfoldable pub new_enhanced_rpc_client_pool :
    List String → List (Option Bool) → Bool → Option RpcPool
unfolding is_local dialled pool_of
new_enhanced_rpc_client_pool [] dials is_testnet = none
new_enhanced_rpc_client_pool (u ∷ us) dials is_testnet =
    pool_of (is_testnet && not (is_local (u ∷ us))) (dialled dials)

unfoldable pub count_healthy : List RpcNode → ℕ
count_healthy [] = 0
count_healthy (n ∷ ns) = if n.is_healthy then count_healthy ns + 1 else count_healthy ns

unfoldable pub get_healthy_node_count : RpcPool → ℕ
unfolding count_healthy
get_healthy_node_count p = count_healthy p.clients

unfoldable pub get_total_node_count : RpcPool → ℕ
get_total_node_count p = length p.clients

unfoldable pub first_healthy : ℕ → List RpcNode → Option ℕ
first_healthy i [] = none
first_healthy i (n ∷ ns) =
    let rest = first_healthy (i + 1) ns in if n.is_healthy then some i else rest

unfoldable pub or_zero : List RpcNode → Option ℕ → Option ℕ
or_zero ns (some i) = some i
or_zero [] none = none
or_zero (n ∷ ns) none = some 0

-- The place of the node whose client is returned.
unfoldable pub get_client_for_metadata : RpcPool → Option ℕ
unfolding first_healthy or_zero
get_client_for_metadata p = or_zero p.clients (first_healthy 0 p.clients)

-- An answer to `CallContract` leaves a node as it is.
unfoldable pub after_contract_reply : {A : Type 0} → ℕ → Reply A → RpcNode → RpcNode
unfolding cool_down mark_node_unhealthy
after_contract_reply now (replied a) n = n
after_contract_reply now too_many_requests n = cool_down now n
after_contract_reply now other_error n = mark_node_unhealthy now n

module _ {A : Type 0} where
  unfoldable pub call_contract_node :
      (RpcPool → RpcPool × Answer A) → Attempt A → ℕ → RpcPool → RpcPool × Answer A
  unfolding after_call after_contract_reply increment_request_count
  call_contract_node again a i p =
      let called = increment_request_count (a.meanwhile p) in
      after_call again a.now i (a.reply i) record called {
        clients = update_at i (after_contract_reply a.now (a.reply i)) called.clients;
      }

  unfoldable pub contract_attempt :
      (RpcPool → RpcPool × Answer A) → Attempt A → RpcPool × Option ℕ → RpcPool × Answer A
  unfolding call_contract_node
  contract_attempt again a (p, none) = (p, no_healthy_nodes)
  contract_attempt again a (p, some i) = call_contract_node again a i p

  unfoldable pub contract_loop : ℕ → ℕ → (ℕ → Attempt A) → RpcPool → RpcPool × Answer A
  unfolding contract_attempt get_next_healthy_node
  contract_loop zero k attempts p = (p, all_failed)
  contract_loop (suc n) k attempts p =
      contract_attempt (contract_loop n (k + 1) attempts) (attempts k)
        (get_next_healthy_node (attempts k).now ((attempts k).before p))

  -- The Boolean is the wait for the global limiter.
  unfoldable pub call_contract : Bool → (ℕ → Attempt A) → RpcPool → RpcPool × Answer A
  unfolding contract_loop
  call_contract global_passes attempts p =
      if p.is_testnet_mode && not global_passes
      then (p, limiter_error)
      else contract_loop (length p.clients) 0 attempts p

-- A pool that is made has a node, and the client for metadata is found.
pub new_pool-client :
    (us : List String) (dials : List (Option Bool)) (t : Bool) (p : RpcPool)
    → new_enhanced_rpc_client_pool us dials t ≡ some p
    → 0 < get_total_node_count p
unfolding new_enhanced_rpc_client_pool pool_of get_total_node_count
new_pool-client us dials t p h = ground arith
