-- ===== src/RpcPool/Health.antt =====
-- The waiting time of a node that failed.
use Prim.Native.Nat.{min}
use web3_indexer_go.Base.{ℕ, ◌+◌, ◌-◌, ◌*◌, ◌^◌, ◌≤◌, ◌<◌, ◌≡◌, refl, true, false, arith, ltb}
use web3_indexer_go.RpcPool.{
  RpcNode, second, is_eligible, backoff, cool_down, mark_node_unhealthy, check_node,
}

-- The backoff of a node that fails is at most 60 seconds, and until it is over the node is not
-- selected.
pub mark_node_unhealthy-waits :
    (now later : ℕ) (n : RpcNode)
    → let m = mark_node_unhealthy now n in
      (m.retry_after ≤ now + 60 * second)
      × (is_eligible later m ≡ ltb (now + backoff (n.fail_count + 1)) later)
unfolding mark_node_unhealthy is_eligible backoff
mark_node_unhealthy-waits now later n =
    let short : min (2 ^ (n.fail_count + 1 - 1)) 60 ≤ 60 = omega arith in (omega arith, refl)

-- The five minutes after a 429 are not kept: a health check that succeeds more than 30 seconds after
-- it makes the node healthy, and it is selected again before its waiting time is over.
pub cool_down_cut_short :
    (now later : ℕ) (n : RpcNode)
    → now + 30 * second < later
    → later < now + 300 * second
    → (is_eligible later (cool_down now n) ≡ false)
      × (is_eligible later (check_node later true (cool_down now n)) ≡ true)
unfolding cool_down check_node is_eligible
cool_down_cut_short now later n a b = (ground arith, ground arith)

-- A node whose health check fails is not taken out of the selection: the check sets no waiting time.
pub failed_check_is_eligible :
    (now : ℕ) (n : RpcNode)
    → n.is_healthy ≡ true
    → n.retry_after < now
    → ((check_node now false n).is_healthy ≡ false)
      × (is_eligible now (check_node now false n) ≡ true)
unfolding check_node is_eligible
failed_check_is_eligible now n h r = (ground arith, ground arith)
