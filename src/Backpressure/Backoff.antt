-- ===== src/Backpressure/Backoff.antt =====
-- The backoff of the watermarks: how long it gets and when it ends.
use Prim.Native.Nat.{min}
use web3_indexer_go.Base.{ℕ, zero, suc, ◌+◌, ◌-◌, ◌≤◌, ◌≡◌, ◌↔◌, false, ◌⊎◌, List, [], ◌∷◌, arith}
use web3_indexer_go.Backpressure.{
  BackpressureManager, allowed, backoff_duration, block_with_error, is_over, is_backing_off,
  check_schedule, reset_backoff,
}

-- A call of the manager: a check with the three depths, or the reset after a schedule.
pub data Call : Type 0 where
  checks : ℕ → ℕ → ℕ → ℕ → Call
  resets : Call

unfoldable pub call : Call → BackpressureManager → BackpressureManager
unfolding check_schedule reset_backoff
call (checks now jobs results buffer) m = (check_schedule now jobs results buffer m).0
call resets m = reset_backoff m

unfoldable pub calls : List Call → BackpressureManager → BackpressureManager
unfolding call
calls [] m = m
calls (c ∷ cs) m = calls cs (call c m)

check-bounded :
    (now jobs results buffer : ℕ) (m : BackpressureManager)
    → m.backoff_level ≤ 5
    → (check_schedule now jobs results buffer m).0.backoff_level ≤ 5
unfolding check_schedule block_with_error
check-bounded now jobs results buffer m h = ground arith

-- Whatever is called, the backoff level stays at five at most, which is 3.2 seconds.
pub calls-bounded :
    (cs : List Call) (m : BackpressureManager)
    → m.backoff_level ≤ 5
    → (calls cs m).backoff_level ≤ 5
unfolding calls call reset_backoff
calls-bounded [] m h = h
calls-bounded (checks now jobs results buffer ∷ cs) m h =
    calls-bounded cs (check_schedule now jobs results buffer m).0
      (check-bounded now jobs results buffer m h)
calls-bounded (resets ∷ cs) m h = calls-bounded cs (reset_backoff m) (omega arith)

-- A check passes exactly when no depth is above its watermark and the backoff, if there is one, is
-- over; it then ends the backoff.
pub check_schedule_allowed_iff :
    (now jobs results buffer : ℕ) (m : BackpressureManager)
    → ((check_schedule now jobs results buffer m).1 ≡ allowed) ↔ (
        (is_over jobs results buffer m ≡ false)
        × ((m.backoff_level ≡ 0) ⊎ (backoff_duration m.backoff_level ≤ now - m.last_blocked_time)))
unfolding check_schedule is_backing_off
check_schedule_allowed_iff now jobs results buffer m = (forth, back)
  where
    forth :
        (check_schedule now jobs results buffer m).1 ≡ allowed
        → (is_over jobs results buffer m ≡ false)
          × ((m.backoff_level ≡ 0) ⊎ (backoff_duration m.backoff_level ≤ now - m.last_blocked_time))
    forth h = ground arith

    back :
        (is_over jobs results buffer m ≡ false)
          × ((m.backoff_level ≡ 0) ⊎ (backoff_duration m.backoff_level ≤ now - m.last_blocked_time))
        → (check_schedule now jobs results buffer m).1 ≡ allowed
    back h = ground arith

-- `k` refusals in a row.
abbrev pub blocks : ℕ → ℕ → BackpressureManager → BackpressureManager
blocks zero now m = m
blocks (suc k) now m = blocks k now (block_with_error now m)

-- Each refusal in a row raises the level by one, up to five.
pub blocks-level :
    (k now : ℕ) (m : BackpressureManager)
    → m.backoff_level ≤ 5
    → (blocks k now m).backoff_level ≡ min 5 (m.backoff_level + k)
unfolding block_with_error
blocks-level zero now m h = omega arith
blocks-level (suc k) now m h =
    let rest = blocks-level k now (block_with_error now m) (ground arith) in ground (arith, rest)
