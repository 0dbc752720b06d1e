-- ===== src/Rotator/Tests.antt =====
-- The rotator over three nodes.
use Prim.Native.String.{String}
use web3_indexer_go.Base.{ℕ, ◌≡◌, refl, true, false, [], ◌∷◌}
use web3_indexer_go.Rotator.{
  RpcNode, RpcRotator, node_at, healthy_url, get_next, next_loop, or_first, first_url,
}

abbrev node : String → ℕ → RpcNode
node url errors = record { url = url; weight = 1; is_healthy = true; error_count = errors }

abbrev three : RpcRotator
three = record {
  nodes =
      record (node "a" 0) { is_healthy = false }
      ∷ node "b" 0
      ∷ record (node "c" 0) { is_healthy = false }
      ∷ [];
  current_idx = 1;
}

skips_to_b : (get_next three).1 ≡ "b"
unfolding get_next next_loop or_first first_url healthy_url node_at
skips_to_b = refl
