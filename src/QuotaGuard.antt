-- ===== src/QuotaGuard.antt =====
-- internal/engine/rpc_quota_guard.go: the daily quota and its mutex. A call that waits for a mutex
-- which its own caller holds never returns: `returned` is false and the mutex stays locked.
use web3_indexer_go.Base.{ℕ, ◌+◌, ◌-◌, ◌<◌, ◌≡◌, Bool, true, false, ltb, if◌then◌else◌, arith}

pub data QuotaMode : Type 0 where
  normal throttling strict exhausted : QuotaMode

-- The float64 comparisons of the ratio of two numbers with 1.0, `StrictThreshold` and 0.85.
pub record Ratios : Type 0 where
  pub reaches_one : ℕ → ℕ → Bool
  pub exceeds_strict : ℕ → ℕ → Bool
  pub exceeds_throttle : ℕ → ℕ → Bool

-- Times are nanoseconds.
pub record QuotaGuard : Type 0 where
  pub locked : Bool
  pub daily_limit : ℕ
  pub current_used : ℕ
  pub last_reset_time : ℕ
  pub mode : QuotaMode
  pub requests_denied : ℕ

abbrev day : ℕ
day = 86400000000000

unfoldable pub new_quota_guard : ℕ → ℕ → QuotaGuard
new_quota_guard now daily_limit = record {
  locked = false;
  daily_limit = daily_limit;
  current_used = 0;
  last_reset_time = now;
  mode = normal;
  requests_denied = 0;
}

unfoldable pub reset : ℕ → QuotaGuard → QuotaGuard × Bool
reset now g =
    if g.locked
    then (g, false)
    else (record g { current_used = 0; last_reset_time = now; mode = normal }, true)

-- The deferred unlock, which a call that hangs does not reach.
unfoldable pub unlocked : QuotaGuard × Bool → QuotaGuard × Bool
unlocked (g, true) = (record g { locked = false }, true)
unlocked (g, false) = (g, false)

unfoldable pub record_request : ℕ → QuotaGuard → QuotaGuard × Bool
unfolding unlocked reset
record_request now g =
    if g.locked
    then (g, false)
    else (let held = record g { locked = true; current_used = g.current_used + 1 } in
        unlocked (if ltb day (now - g.last_reset_time) then reset now held else (held, true)))

module _ (ratios : Ratios) where
  unfoldable pub mode_of : ℕ → ℕ → QuotaMode
  mode_of used limit =
      if ratios.exceeds_strict used limit
      then strict
      else (if ratios.exceeds_throttle used limit then throttling else normal)

  -- The second Boolean is the answer, when the call returns.
  unfoldable pub allow_request : QuotaGuard → QuotaGuard × Bool × Bool
  unfolding mode_of
  allow_request g =
      if g.locked
      then (g, false, false)
      else (if ratios.reaches_one g.current_used g.daily_limit
          then (record g { requests_denied = g.requests_denied + 1 }, true, false)
          else (record g { mode = mode_of g.current_used g.daily_limit }, true, true))

  unfoldable pub set_current_used : ℕ → QuotaGuard → QuotaGuard × Bool
  unfolding mode_of
  set_current_used used g = if g.locked then (g, false) else (
    record g {
      current_used = used;
      mode =
          if ratios.reaches_one used g.daily_limit then exhausted else mode_of used g.daily_limit;
    },
    true,
  )

  -- The first request more than a day after the last reset hangs, and so does every call after it.
  record_request-hangs :
      (now later : ℕ) (g : QuotaGuard)
      → g.locked ≡ false
      → day < now - g.last_reset_time
      → let h = (record_request now g).0 in
        ((record_request now g).1 ≡ false)
        × ((record_request later h).1 ≡ false)
        × ((allow_request h).1 ≡ false)
        × ((reset later h).1 ≡ false)
  unfolding record_request unlocked reset allow_request
  record_request-hangs now later g u l =
      (ground (arith, u, l), ground (arith, u, l), ground (arith, u, l), ground (arith, u, l))
