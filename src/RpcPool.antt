-- ===== src/RpcPool.antt =====
-- internal/engine/rpc_pool_*.go: the pool of RPC nodes. Nodes are told apart by their place in
-- `clients`; times are nanoseconds. What a node answers and whether a wait for a rate limiter ends
-- without an error are given with the call.
pub mod Health
pub mod Selection
pub mod Requests
pub mod Setup
pub mod Legacy
mod Tests
use Prim.Native.Nat.{min}
use web3_indexer_go.Base.{
  ℕ, zero, suc, ◌+◌, ◌-◌, ◌*◌, ◌%◌, ◌^◌, Bool, true, false, ◌&&◌, ◌||◌, not, List, [], ◌∷◌, ◌++◌,
  map, Option, none, some, ltb, ◌==◌, if◌then◌else◌, length, is_some,
}

pub record RpcNode : Type 0 where
  pub weight : ℕ
  pub is_healthy : Bool
  pub last_error : ℕ
  pub retry_after : ℕ
  pub fail_count : ℕ

pub record RpcPool : Type 0 where
  pub clients : List RpcNode
  pub request_count : ℕ
  pub is_testnet_mode : Bool
  pub current_sync_batch : ℕ

abbrev pub second : ℕ
second = 1000000000

-- A weight that is not positive counts as one.
unfoldable pub weight_of : RpcNode → ℕ
weight_of n = if n.weight == 0 then 1 else n.weight

unfoldable pub is_eligible : ℕ → RpcNode → Bool
is_eligible now n = n.is_healthy || ltb n.retry_after now

-- The eligible nodes with their places, from place `i` on.
unfoldable pub healthy_nodes : ℕ → ℕ → List RpcNode → List (ℕ × RpcNode)
unfolding is_eligible
healthy_nodes now i [] = []
healthy_nodes now i (n ∷ ns) =
    let rest = healthy_nodes now (i + 1) ns in if is_eligible now n then (i, n) ∷ rest else rest

unfoldable pub total_weight : List (ℕ × RpcNode) → ℕ
unfolding weight_of
total_weight [] = 0
total_weight ((i, n) ∷ ns) = weight_of n + total_weight ns

-- The second loop, with what `val` exceeds `current` by; none when it runs out.
unfoldable pub pick : ℕ → List (ℕ × RpcNode) → Option ℕ
unfolding weight_of
pick val [] = none
pick val ((i, n) ∷ ns) =
    let rest = pick (val - weight_of n) ns in if ltb val (weight_of n) then some i else rest

unfoldable pub or_head : List (ℕ × RpcNode) → Option ℕ → Option ℕ
or_head ns (some i) = some i
or_head [] none = none
or_head ((i, n) ∷ ns) none = some i

-- The request counter after the call, and the place of the node.
unfoldable pub choose : ℕ → List (ℕ × RpcNode) → ℕ × Option ℕ
unfolding pick or_head total_weight
choose count [] = (count, none)
choose count (n ∷ ns) =
    (count + 1, or_head (n ∷ ns) (pick ((count + 1) % total_weight (n ∷ ns)) (n ∷ ns)))

unfoldable pub get_next_healthy_node : ℕ → RpcPool → RpcPool × Option ℕ
unfolding choose healthy_nodes
get_next_healthy_node now p =
    let (count, found) = choose p.request_count (healthy_nodes now 0 p.clients) in
    (record p { request_count = count }, found)

unfoldable pub update_at : ℕ → (RpcNode → RpcNode) → List RpcNode → List RpcNode
update_at i f [] = []
update_at zero f (n ∷ ns) = f n ∷ ns
update_at (suc i) f (n ∷ ns) = n ∷ update_at i f ns

-- The answer of a node: its value, or an error whose text does or does not speak of a limit.
pub data Reply (A : Type 0) : Type 0 where
  replied : A → Reply A
  too_many_requests : Reply A
  other_error : Reply A

-- 1, 2, 4, ... seconds, at most 60.
unfoldable pub backoff : ℕ → ℕ
backoff fail_count = min (2 ^ (fail_count - 1)) 60 * second

unfoldable pub cool_down : ℕ → RpcNode → RpcNode
cool_down now n = record n {
  is_healthy = false;
  last_error = now;
  retry_after = now + 300 * second;
}

unfoldable pub mark_node_unhealthy : ℕ → RpcNode → RpcNode
unfolding backoff
mark_node_unhealthy now n = record n {
  is_healthy = false;
  last_error = now;
  fail_count = n.fail_count + 1;
  retry_after = now + backoff (n.fail_count + 1);
}

-- `handleRPCError`, and the recovery of a node that replies.
unfoldable pub after_reply : {A : Type 0} → ℕ → Reply A → RpcNode → RpcNode
unfolding cool_down mark_node_unhealthy
after_reply now (replied a) n = record n {
  is_healthy = true;
  fail_count = if n.is_healthy then n.fail_count else 0;
}
after_reply now too_many_requests n = cool_down now n
after_reply now other_error n = mark_node_unhealthy now n

unfoldable pub increment_request_count : RpcPool → RpcPool
increment_request_count p = record p { request_count = p.request_count + 1 }

-- The batch counter, and whether the caller sleeps for 200 milliseconds.
unfoldable pub enforce_sync_batch_limit : RpcPool → RpcPool × Bool
enforce_sync_batch_limit p =
    let sleeps = p.is_testnet_mode && ltb 50 (p.current_sync_batch + 1) in
    (
      record p {
        current_sync_batch =
            if p.is_testnet_mode
            then (if sleeps then 0 else p.current_sync_batch + 1)
            else p.current_sync_batch;
      },
      sleeps,
    )

-- What an attempt meets: the time, whether the wait for the node's limiter ends well, and what each
-- node would reply. The pool's counters are single atomic additions and its nodes have locks of their
-- own, so other callers may change the pool between the steps of an attempt: `before` is what they do
-- before the node is selected, `meanwhile` what they do from then until the node has replied. The
-- selection itself is one step.
pub record Attempt (A : Type 0) : Type 0 where
  pub now : ℕ
  pub limiter_passes : Bool
  pub reply : ℕ → Reply A
  pub before : RpcPool → RpcPool
  pub meanwhile : RpcPool → RpcPool

-- The answer with the place of the node that gave it.
pub data Answer (A : Type 0) : Type 0 where
  answered : ℕ → A → Answer A
  no_healthy_nodes : Answer A
  limiter_error : Answer A
  all_failed : Answer A

module _ {A : Type 0} where
  unfoldable pub after_call :
      (RpcPool → RpcPool × Answer A) → ℕ → ℕ → Reply A → RpcPool → RpcPool × Answer A
  after_call again now i (replied a) p = (p, answered i a)
  after_call again now i _ p = again p

  -- One attempt at the node `i`.
  unfoldable pub call_node :
      (RpcPool → RpcPool × Answer A) → Attempt A → ℕ → RpcPool → RpcPool × Answer A
  unfolding after_call after_reply increment_request_count
  call_node again a i p =
      let called = increment_request_count (a.meanwhile p) in
      after_call again a.now i (a.reply i)
        (record called { clients = update_at i (after_reply a.now (a.reply i)) called.clients })

  unfoldable pub attempt :
      (RpcPool → RpcPool × Answer A) → Attempt A → RpcPool × Option ℕ → RpcPool × Answer A
  unfolding call_node
  attempt again a (p, none) = (p, no_healthy_nodes)
  attempt again a (p, some i) = elim (p.is_testnet_mode && not a.limiter_passes) [
    | true ↦ (p, limiter_error)
    | false ↦ call_node again a i p
  ]

  -- The loop of `BlockByNumber`, `HeaderByNumber`, `FilterLogs` and `GetLatestBlockNumber`, which
  -- makes as many attempts as there are nodes.
  unfoldable pub request_loop : ℕ → ℕ → (ℕ → Attempt A) → RpcPool → RpcPool × Answer A
  unfolding attempt get_next_healthy_node
  request_loop zero k attempts p = (p, all_failed)
  request_loop (suc n) k attempts p =
      attempt (request_loop n (k + 1) attempts) (attempts k)
        (get_next_healthy_node (attempts k).now ((attempts k).before p))

  -- The Boolean is the wait for the global limiter.
  unfoldable pub request : Bool → (ℕ → Attempt A) → RpcPool → RpcPool × Answer A
  unfolding request_loop
  request global_passes attempts p =
      if p.is_testnet_mode && not global_passes
      then (p, limiter_error)
      else request_loop (length p.clients) 0 attempts p

  -- `BlockByNumber`, `HeaderByNumber` and `FilterLogs` count the batch first.
  unfoldable pub batched_request : Bool → (ℕ → Attempt A) → RpcPool → RpcPool × Answer A
  unfolding request enforce_sync_batch_limit
  batched_request global_passes attempts p =
      request global_passes attempts (enforce_sync_batch_limit p).0

-- One node in `checkHealth`; the Boolean is whether `BlockNumber` succeeds.
unfoldable pub check_node : ℕ → Bool → RpcNode → RpcNode
check_node now works n =
    let due = ltb (30 * second) (now - n.last_error) in
    record n {
      is_healthy = if n.is_healthy then works else due && works;
      fail_count = if n.is_healthy && not works then n.fail_count + 1 else n.fail_count;
      last_error = if n.is_healthy && not works then now else n.last_error;
    }

unfoldable pub check_nodes : ℕ → (ℕ → Bool) → ℕ → List RpcNode → List RpcNode
unfolding check_node
check_nodes now works i [] = []
check_nodes now works i (n ∷ ns) = check_node now (works i) n ∷ check_nodes now works (i + 1) ns

unfoldable pub check_health : ℕ → (ℕ → Bool) → RpcPool → RpcPool
unfolding check_nodes
check_health now works p = record p { clients = check_nodes now works 0 p.clients }
