-- ===== src/RpcPool/Requests.antt =====
-- How the requests are spread over the nodes.
use native.Mathlib.Nat.{add-mod_right}
use web3_indexer_go.Base.{
  ℕ, zero, suc, ◌+◌, ◌%◌, ◌<◌, ◌≡◌, refl, ap, ◌∙◌, true, false, List, [], ◌∷◌, Option, none, some,
  arith,
}
use web3_indexer_go.RpcPool.{
  RpcNode, RpcPool, weight_of, is_eligible, healthy_nodes, total_weight, pick, or_head, choose,
  get_next_healthy_node, update_at, replied, after_reply, Attempt, Answer, answered, attempt,
  call_node, after_call, request_loop, request, increment_request_count,
}

abbrev pub fresh_node : RpcNode
fresh_node = record {
  weight = 1;
  is_healthy = true;
  last_error = 0;
  retry_after = 0;
  fail_count = 0;
}

-- Two nodes as the pool makes them, outside the testnet mode.
abbrev pub pair : ℕ → RpcPool
pair count = record {
  clients = fresh_node ∷ fresh_node ∷ [];
  request_count = count;
  is_testnet_mode = false;
  current_sync_batch = 0;
}

choose-pair :
    (now count : ℕ)
    → get_next_healthy_node now (pair count) ≡ (pair (count + 1), some ((count + 1) % 2))
unfolding get_next_healthy_node choose healthy_nodes is_eligible total_weight pick or_head weight_of
choose-pair now count = ground arith

abbrev pub replicate : ℕ → Option ℕ → List (Option ℕ)
replicate zero x = []
replicate (suc n) x = x ∷ replicate n x

parity : (count : ℕ) → (count + 2 + 1) % 2 ≡ (count + 1) % 2
parity count = ap (λ x. x % 2) {y = count + 1 + 2} (omega arith) ∙ add-mod_right (count + 1) 2

module _ {A : Type 0} where
  -- A time at which both nodes reply and no other caller uses the pool.
  abbrev pub serving : ℕ → (ℕ → A) → Attempt A
  serving now value = record {
    now = now;
    limiter_passes = true;
    reply = λ i. replied (value i);
    before = λ p. p;
    meanwhile = λ p. p;
  }

  called :
      (again : RpcPool → RpcPool × Answer A) (now : ℕ) (value : ℕ → A) (count i : ℕ)
      → i < 2
      → call_node again (serving now value) i (pair count)
        ≡ (pair (count + 1), answered i (value i))
  unfolding call_node after_call after_reply increment_request_count update_at
  called again now value count zero h = refl
  called again now value count (suc zero) h = refl
  called again now value count (suc (suc i)) h = absurd (omega arith)

  request-pair :
      (now : ℕ) (value : ℕ → A) (count : ℕ)
      → request true (λ k. serving now value) (pair count)
        ≡ (pair (count + 2), answered ((count + 1) % 2) (value ((count + 1) % 2)))
  unfolding request request_loop attempt
  request-pair now value count =
      let again : RpcPool → RpcPool × Answer A = request_loop 1 1 (λ k. serving now value) in
      ap (attempt again (serving now value)) (choose-pair now count)
      ∙ called again now value (count + 1) ((count + 1) % 2) (omega arith)
      ∙ ap (λ c. (pair c, answered ((count + 1) % 2) (value ((count + 1) % 2)))) (omega arith)

  -- The places of the nodes that answer successive requests, all of which both nodes would answer.
  abbrev pub place_of : Answer A → Option ℕ
  place_of (answered i a) = some i
  place_of _ = none

  unfoldable pub places : ℕ → ℕ → (ℕ → A) → RpcPool → List (Option ℕ)
  unfolding request
  places zero now value p = []
  places (suc n) now value p =
      let (q, a) = request true (λ k. serving now value) p in place_of a ∷ places n now value q

  -- Of two healthy nodes of weight 1, as the constructor makes them, that both reply, only one is ever
  -- asked by requests that one caller makes one after another, with no other caller in between and
  -- outside the testnet mode: a request counts twice, once in the selection and once after the call,
  -- so that the counter keeps its parity.
  pub places-same :
      (n now : ℕ) (value : ℕ → A) (count : ℕ)
      → places n now value (pair count) ≡ replicate n (some ((count + 1) % 2))
  unfolding places
  places-same zero now value count = refl
  places-same (suc n) now value count =
      ap (λ (r : RpcPool × Answer A). place_of r.1 ∷ places n now value r.0)
        (request-pair now value count)
      ∙ ap (◌∷◌ (some ((count + 1) % 2)))
          (places-same n now value (count + 2) ∙ ap (λ x. replicate n (some x)) (parity count))
