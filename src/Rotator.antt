-- ===== src/Rotator.antt =====
-- internal/engine/rpc_rotator.go: the round robin over RPC nodes. `current_idx` is a uint32.
pub mod Health
mod Tests
use Prim.Native.String.{String}
use text.Mathlib.Text.{◌==◌ as str_eq}
use web3_indexer_go.Base.{
  ℕ, zero, suc, ◌+◌, ◌-◌, ◌%◌, ◌^◌, Bool, true, false, ◌&&◌, List, [], ◌∷◌, Option, none, some, ltb,
  ◌==◌, if◌then◌else◌, length, map,
}

pub record RpcNode : Type 0 where
  pub url : String
  pub weight : ℕ
  pub is_healthy : Bool
  pub error_count : ℕ

pub record RpcRotator : Type 0 where
  pub nodes : List RpcNode
  pub current_idx : ℕ

unfoldable pub new_rpc_rotator : List String → RpcRotator
new_rpc_rotator urls = record {
  nodes = map (λ url. record { url = url; weight = 1; is_healthy = true; error_count = 0 }) urls;
  current_idx = 0;
}

unfoldable pub node_at : ℕ → List RpcNode → Option RpcNode
node_at i [] = none
node_at zero (n ∷ ns) = some n
node_at (suc i) (n ∷ ns) = node_at i ns

unfoldable pub healthy_url : Option RpcNode → Option String
healthy_url none = none
healthy_url (some n) = if n.is_healthy then some n.url else none

-- The loop with `rounds` left: the index it leaves, and the node it returns.
unfoldable pub next_loop : ℕ → List RpcNode → ℕ → ℕ × Option String
unfolding node_at healthy_url
next_loop zero nodes idx = (idx, none)
next_loop (suc rounds) nodes idx =
    let idx' = (idx + 1) % 2 ^ 32 in
    let rest = next_loop rounds nodes idx' in
    elim (healthy_url (node_at (idx' % length nodes) nodes)) [
      | some url ↦ (idx', some url)
      | none ↦ rest
    ]

unfoldable pub first_url : List RpcNode → String
first_url [] = ""
first_url (n ∷ ns) = n.url

unfoldable pub or_first : List RpcNode → Option String → String
or_first nodes none = first_url nodes
or_first nodes (some url) = url

unfoldable pub get_next : RpcRotator → RpcRotator × String
unfolding next_loop or_first first_url
get_next r =
    let (idx, found) = next_loop (length r.nodes) r.nodes r.current_idx in
    (record r { current_idx = idx }, or_first r.nodes found)

-- What is done to the first node with the URL.
unfoldable pub update_first : String → (RpcNode → RpcNode) → List RpcNode → List RpcNode
update_first url f [] = []
update_first url f (n ∷ ns) =
    let rest = update_first url f ns in if str_eq n.url url then f n ∷ ns else n ∷ rest

unfoldable pub mark_unhealthy : String → RpcRotator → RpcRotator
unfolding update_first
mark_unhealthy url r = record r {
  nodes = update_first url (λ n. record n { is_healthy = false }) r.nodes;
}

unfoldable pub mark_healthy : String → RpcRotator → RpcRotator
unfolding update_first
mark_healthy url r = record r {
  nodes = update_first url (λ n. record n { is_healthy = true }) r.nodes;
}

-- More than ten errors make the node unhealthy: it is the first with its URL.
unfoldable pub count_error : RpcNode → RpcNode
count_error n = record n {
  error_count = n.error_count + 1;
  is_healthy = if ltb 10 (n.error_count + 1) then false else n.is_healthy;
}

unfoldable pub record_error : String → RpcRotator → RpcRotator
unfolding update_first count_error
record_error url r = record r { nodes = update_first url count_error r.nodes }

unfoldable pub get_healthy_count : List RpcNode → ℕ
get_healthy_count [] = 0
get_healthy_count (n ∷ ns) = (if n.is_healthy then 1 else 0) + get_healthy_count ns
