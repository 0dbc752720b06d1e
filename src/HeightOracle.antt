-- ===== src/HeightOracle.antt =====
-- internal/engine/height_oracle.go: the two heights that the indexer goes by. Heights are below 2 ^ 63
-- and not negative. A snapshot reads the two values one after the other: `snapshot` is given both.
mod Tests
use web3_indexer_go.Base.{ℕ, ◌+◌, ◌-◌, ◌≡◌, Bool, true, false, ◌&&◌, arith, ltb, if◌then◌else◌}

pub record HeightOracle : Type 0 where
  pub chain_head : ℕ
  pub indexed_head : ℕ
  pub updated_at : ℕ
  pub strict_height_check : Bool
  pub drift_tolerance : ℕ

pub record HeightSnapshot : Type 0 where
  pub chain_head : ℕ
  pub indexed_head : ℕ
  pub sync_lag : ℕ
  pub drift_blocks : ℕ
  pub is_time_travel : Bool
  pub updated_at : ℕ

abbrev pub global_height_oracle : HeightOracle
global_height_oracle = record {
  chain_head = 0;
  indexed_head = 0;
  updated_at = 0;
  strict_height_check = true;
  drift_tolerance = 5;
}

unfoldable pub set_chain_head : ℕ → ℕ → HeightOracle → HeightOracle
set_chain_head height now o = record o { chain_head = height; updated_at = now }

-- The oracle, and whether the error of a height beyond the chain is logged.
unfoldable pub set_indexed_head : ℕ → HeightOracle → HeightOracle × Bool
set_indexed_head height o = (
  record o { indexed_head = height },
  o.strict_height_check && ltb 0 o.chain_head && ltb (o.chain_head + o.drift_tolerance) height,
)

unfoldable pub sync_lag : HeightOracle → ℕ
sync_lag o = o.chain_head - o.indexed_head

unfoldable pub drift_blocks : HeightOracle → ℕ
drift_blocks o = o.indexed_head - o.chain_head

unfoldable pub is_time_travel : HeightOracle → Bool
unfolding drift_blocks
is_time_travel o = ltb o.drift_tolerance (drift_blocks o)

-- `chain` and `indexed` are the heads at the two loads.
unfoldable pub snapshot : ℕ → ℕ → HeightOracle → HeightSnapshot
snapshot chain indexed o =
    let behind = ltb chain indexed in
    let drift = if behind then indexed - chain else 0 in
    record {
      chain_head = chain;
      indexed_head = indexed;
      sync_lag = if behind then 0 else chain - indexed;
      drift_blocks = drift;
      is_time_travel = ltb o.drift_tolerance drift;
      updated_at = o.updated_at;
    }

-- A snapshot without a write between its loads agrees with the single queries, and its lag and drift
-- account for the difference of the two heads.
pub snapshot-queries :
    (o : HeightOracle)
    → let s = snapshot o.chain_head o.indexed_head o in
      (s.sync_lag ≡ sync_lag o)
      × (s.drift_blocks ≡ drift_blocks o)
      × (s.is_time_travel ≡ is_time_travel o)
      × (o.chain_head + s.drift_blocks ≡ o.indexed_head + s.sync_lag)
unfolding snapshot sync_lag drift_blocks is_time_travel
snapshot-queries o =
    let drift : (if ltb o.chain_head o.indexed_head then o.indexed_head - o.chain_head else 0)
        ≡ o.indexed_head - o.chain_head =
      ground arith in
    (ground arith, drift, ground (arith, drift), ground arith)
