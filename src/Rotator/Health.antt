-- ===== src/Rotator/Health.antt =====
-- Which node the rotator returns, and what its error count does.
use Prim.Native.String.{String}
use text.Mathlib.Text.{◌==◌ as str_eq}
use text.Mathlib.TextPositions.{eq_refl}
use web3_indexer_go.Base.{
  ℕ, ◌≤◌, ◌≡◌, Bool, true, false, List, ◌∷◌, Option, none, some, arith, ◌==◌,
}
use web3_indexer_go.Rotator.{
  RpcNode, RpcRotator, node_at, healthy_url, update_first, mark_healthy, count_error, record_error,
}

-- What the loop finds is a healthy node of the list.
abbrev pub IsHealthyUrl : List RpcNode → String → Type 0
IsHealthyUrl nodes url = (i : ℕ) × (healthy_url (node_at i nodes) ≡ some url)

-- The errors in a row that a healthy node may have.
abbrev pub healthy_of : Option RpcNode → Bool
healthy_of none = false
healthy_of (some n) = n.is_healthy

-- A node that has once had more than ten errors is down again after a single error, though it was
-- marked healthy in between: recovery does not reset its count.
pub recovered_node_fails :
    (n : RpcNode) (ns : List RpcNode) (i : ℕ)
    → 10 ≤ n.error_count
    → let r : RpcRotator = record { nodes = n ∷ ns; current_idx = i } in
      (healthy_of (node_at 0 (mark_healthy n.url r).nodes) ≡ true)
      × (healthy_of (node_at 0 (record_error n.url (mark_healthy n.url r)).nodes) ≡ false)
unfolding mark_healthy record_error update_first count_error node_at
recovered_node_fails n ns i h =
    let same : str_eq n.url n.url ≡ true = eq_refl n.url in
    (ground (arith, same), ground (arith, same))
