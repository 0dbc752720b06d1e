-- ===== src/HeightOracle/Tests.antt =====
-- The oracle when the indexer is ahead of the node.
use web3_indexer_go.Base.{◌≡◌, refl, true}
use web3_indexer_go.HeightOracle.{HeightOracle, global_height_oracle, drift_blocks, is_time_travel}

abbrev ahead : HeightOracle
ahead = record global_height_oracle { chain_head = 90; indexed_head = 100 }

ahead_is_time_travel : is_time_travel ahead ≡ true
unfolding is_time_travel drift_blocks
ahead_is_time_travel = refl
