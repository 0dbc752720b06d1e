-- ===== src/RpcPool/Tests.antt =====
-- The pool on concrete nodes, and the theorems at concrete inputs.
use web3_indexer_go.Base.{ℕ, ◌≡◌, refl, true, some, ◌==◌, if◌then◌else◌}
use web3_indexer_go.RpcPool.{
  second, is_eligible, backoff, mark_node_unhealthy, get_next_healthy_node, replied, other_error,
  Attempt, answered, request, request_loop, attempt, call_node, after_call, after_reply, update_at,
  increment_request_count, choose, healthy_nodes, total_weight, pick, or_head, weight_of,
}
use web3_indexer_go.RpcPool.Selection.{IsEligibleAt, get_next-some}
use web3_indexer_go.RpcPool.Requests.{fresh_node, pair, places, replicate, places-same}

-- The node at place 1 fails, and the other one answers.
abbrev one_down : Attempt ℕ
one_down = record {
  now = second;
  limiter_passes = true;
  reply = λ i. if i == 1 then other_error else replied 7;
  before = λ p. p;
  meanwhile = λ p. p;
}

fails_over : (request true (λ k. one_down) (pair 0)).1 ≡ answered 0 7
unfolding request request_loop attempt call_node after_call after_reply update_at
    increment_request_count get_next_healthy_node choose healthy_nodes is_eligible total_weight pick
    or_head weight_of mark_node_unhealthy backoff
fails_over = refl

get_next-some_example :
    (k : ℕ) × ((get_next_healthy_node 5 (pair 3)).1 ≡ some k) × IsEligibleAt 5 0 (pair 3).clients k
unfolding is_eligible
get_next-some_example = get_next-some 5 1 fresh_node (pair 3) refl refl

places-same_example : places 4 5 (λ i. i) (pair 6) ≡ replicate 4 (some 1)
places-same_example = places-same 4 5 (λ i. i) 6
