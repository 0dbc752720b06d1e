-- ===== src/RateLimiter.antt =====
-- internal/limiter/rate_limiter.go: the rate and the burst that are handed to the limiter.
use Prim.Native.String.{String}
use web3_indexer_go.Base.{
  ℕ, ◌*◌, ◌≤◌, ◌≡◌, Bool, false, ◌&&◌, ◌||◌, List, [], ◌∷◌, ltb, leb, if◌then◌else◌, arith,
  contains,
}

abbrev max_safety_rps : ℕ
max_safety_rps = 3

abbrev local_max_rps : ℕ
local_max_rps = 500

abbrev burst_multiplier : ℕ
burst_multiplier = 10

-- An unset variable is "", which contains none of the texts.
unfoldable pub is_local_value : String → Bool
unfolding contains
is_local_value val = contains val "localhost" || (contains val "127.0.0.1" || contains val "anvil")

-- The values of `RPC_URLS`, `RPC_URL` and `DATABASE_URL`.
unfoldable pub is_local_environment : List String → Bool
unfolding is_local_value
is_local_environment [] = false
is_local_environment (val ∷ vals) = is_local_value val || is_local_environment vals

unfoldable pub max_allowed_rps : Bool → ℕ
max_allowed_rps is_local = if is_local then local_max_rps else max_safety_rps

pub record RateLimiter : Type 0 where
  pub max_rps : ℕ
  pub burst : ℕ

-- A negative request is as good as none, 0.
unfoldable pub new_rate_limiter : List String → ℕ → RateLimiter
unfolding is_local_environment max_allowed_rps
new_rate_limiter environment env_rps =
    let allowed = max_allowed_rps (is_local_environment environment) in
    let rps = if ltb 0 env_rps && leb env_rps allowed then env_rps else allowed in
    record {
      max_rps = rps;
      burst = if ltb (rps * burst_multiplier) 1 then 1 else rps * burst_multiplier;
    }

-- Whatever is asked for, the rate is positive and within what the environment allows, and the burst is
-- ten times the rate.
new_rate_limiter-bounded :
    (environment : List String) (env_rps : ℕ)
    → let allowed = max_allowed_rps (is_local_environment environment) in
      (1 ≤ (new_rate_limiter environment env_rps).max_rps)
      × ((new_rate_limiter environment env_rps).max_rps ≤ allowed)
      × ((new_rate_limiter environment env_rps).burst
          ≡ 10 * (new_rate_limiter environment env_rps).max_rps)
unfolding new_rate_limiter max_allowed_rps
new_rate_limiter-bounded environment env_rps = (ground arith, ground arith, ground arith)
