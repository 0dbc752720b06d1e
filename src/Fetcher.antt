-- ===== src/Fetcher.antt =====
-- internal/engine/fetcher_core.go and fetcher_control.go: the state of the Fetcher that its users
-- see, and its pause switch. The worker pool, the RPC calls and the recorder are not in the state.
pub mod Schedule
pub mod Range
pub mod Worker
mod Tests
use web3_indexer_go.Base.{ℕ, Bool, true, false, List, []}

-- Heights are nonnegative big integers.
pub record FetchJob : Type 0 where
  pub start : ℕ
  pub end : ℕ

-- `jobs` is the job channel, oldest first; `results_depth` is `len(f.Results)`.
pub record Fetcher : Type 0 where
  pub paused : Bool
  pub stopped : Bool
  pub jobs : List FetchJob
  pub jobs_cap : ℕ
  pub results_depth : ℕ
  pub results_cap : ℕ

unfoldable pub pause : Fetcher → Fetcher
pause f = record f { paused = true }

unfoldable pub resume : Fetcher → Fetcher
resume f = record f { paused = false }

unfoldable pub is_paused : Fetcher → Bool
is_paused f = f.paused

unfoldable pub clear_jobs : Fetcher → Fetcher
clear_jobs f = record f { jobs = [] }
