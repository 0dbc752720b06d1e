-- ===== src/SlidingWindow/Tests.antt =====
-- The limiter on concrete times, and the theorems at concrete inputs.
use web3_indexer_go.Base.{◌-◌, ◌*◌, ◌≤◌, ◌≡◌, refl, [], ◌∷◌, arith}
use web3_indexer_go.SlidingWindow.{
  SlidingWindowLimiter, new_sliding_window_limiter, allow, evict, evict_loop, record_time,
}
use web3_indexer_go.SlidingWindow.Ring.{IsRing, entries, allow_queue, allow-refines}
use web3_indexer_go.SlidingWindow.Quota.{permit, recent, permit-quota}

-- Two places, the older time in the second.
abbrev full : SlidingWindowLimiter
full = record { window = 10; limit = 2; timestamps = λ i. 15 - 8 * i; head = 1; count = 2 }

third_call :
    (permit ((1, 1) ∷ (2, 2) ∷ (3, 3) ∷ (12, 12) ∷ []) [] (new_sliding_window_limiter 2 10)).1
    ≡ 1 ∷ 2 ∷ 12 ∷ []
unfolding allow evict evict_loop record_time new_sliding_window_limiter
third_call = refl

allow-refines_example :
    let (t, ok) = allow 18 18 full in
    IsRing t
    × (t.limit ≡ 2)
    × (t.window ≡ 10)
    × ((entries t, ok) ≡ allow_queue 10 2 18 18 (7 ∷ 15 ∷ []))
allow-refines_example =
    allow-refines 18 18 full (omega arith, (λ e. absurd (omega (arith, e))), λ h. omega arith)

permit-quota_example :
    recent 10 12
      (permit ((1, 1) ∷ (2, 2) ∷ (3, 3) ∷ (12, 12) ∷ []) [] (new_sliding_window_limiter 2 10)).1
    ≤ 2
permit-quota_example = permit-quota 2 10 0 ((1, 1) ∷ (2, 2) ∷ (3, 3) ∷ (12, 12) ∷ []) (
  omega arith,
  omega arith,
  (omega arith, omega arith, (omega arith, omega arith, (omega arith, omega arith, tt))),
)
