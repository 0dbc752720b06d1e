-- ===== src/SlidingWindow.antt =====
-- internal/limiter/sliding_window.go: the limiter that keeps the times of the last requests in a ring
-- buffer. Times are nanoseconds; each method takes the values that its readings of the clock give.
pub mod Ring
pub mod Quota
pub mod Waiting
mod Tests
use web3_indexer_go.Base.{
  ℕ, zero, suc, ◌+◌, ◌-◌, ◌%◌, Bool, true, false, Option, none, some, ltb, leb, ◌==◌, if◌then◌else◌,
}

-- `timestamps` is the slice of length `limit`; nothing reads it beyond.
pub record SlidingWindowLimiter : Type 0 where
  pub window : ℕ
  pub limit : ℕ
  pub timestamps : ℕ → ℕ
  pub head : ℕ
  pub count : ℕ

-- The slice with one place written.
abbrev pub set : ℕ → ℕ → (ℕ → ℕ) → ℕ → ℕ
set i v f j = if j == i then v else f j

unfoldable pub new_sliding_window_limiter : ℕ → ℕ → SlidingWindowLimiter
new_sliding_window_limiter limit window = record {
  window = window;
  limit = limit;
  timestamps = λ i. 0;
  head = 0;
  count = 0;
}

-- The loop of `evict`, whose bound is the count it brings down.
unfoldable pub evict_loop : ℕ → ℕ → SlidingWindowLimiter → SlidingWindowLimiter
evict_loop zero now s = s
evict_loop (suc c) now s =
    let rest = evict_loop c now (record s { head = (s.head + 1) % s.limit; count = c }) in
    if ltb (s.timestamps s.head + s.window) now then rest else s

unfoldable pub evict : ℕ → SlidingWindowLimiter → SlidingWindowLimiter
evict now s = evict_loop s.count now s

-- `record`.
unfoldable pub record_time : ℕ → SlidingWindowLimiter → SlidingWindowLimiter
record_time at s = record s {
  timestamps = set ((s.head + s.count) % s.limit) at s.timestamps;
  count = suc s.count;
}

unfoldable pub allow : ℕ → ℕ → SlidingWindowLimiter → SlidingWindowLimiter × Bool
allow now at s =
    let e = evict now s in if leb e.limit e.count then (e, false) else (record_time at e, true)

-- One round of `Wait`: the request is permitted, or the round says until when to wait.
unfoldable pub wait_round : ℕ → ℕ → SlidingWindowLimiter → SlidingWindowLimiter × Option ℕ
wait_round now at s =
    let e = evict now s in
    if ltb e.count e.limit
    then (record_time at e, none)
    else (e, some (e.timestamps e.head + e.window))

unfoldable pub quota_used : ℕ → SlidingWindowLimiter → SlidingWindowLimiter × ℕ
quota_used now s = let e = evict now s in (e, e.count)

unfoldable pub quota_remaining : ℕ → SlidingWindowLimiter → SlidingWindowLimiter × ℕ
quota_remaining now s = let e = evict now s in (e, e.limit - e.count)

unfoldable pub window_reset_in : ℕ → ℕ → SlidingWindowLimiter → SlidingWindowLimiter × ℕ
window_reset_in now at s =
    let e = evict now s in (e, if e.count == 0 then 0 else e.timestamps e.head + e.window - at)
