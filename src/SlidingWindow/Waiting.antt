-- ===== src/SlidingWindow/Waiting.antt =====
-- Waiting as long as `Wait` says is enough: internal/limiter/sliding_window.go.
use web3_indexer_go.Base.{
  ℕ, zero, suc, ◌+◌, ◌-◌, ◌%◌, ◌≤◌, ◌<◌, ◌≡◌, refl, sym, ap, ◌∙◌, Bool, true, false, Option, none,
  some, ltb, if◌then◌else◌, arith,
}
use web3_indexer_go.SlidingWindow.{SlidingWindowLimiter, evict_loop, evict, record_time, wait_round}
use web3_indexer_go.SlidingWindow.Ring.{IsRing, evict-Evicted}

evict_loop-le :
    (c now : ℕ) (s : SlidingWindowLimiter) → s.count ≡ c → (evict_loop c now s).count ≤ c
unfolding evict_loop
evict_loop-le zero now s e = omega (arith, e)
evict_loop-le (suc c) now s e =
    let t : SlidingWindowLimiter = record s { head = (s.head + 1) % s.limit; count = c } in
    ground (arith, e, evict_loop-le c now t refl)

evict_loop-lt :
    (c now : ℕ) (s : SlidingWindowLimiter)
    → s.count ≡ suc c
    → s.timestamps s.head + s.window < now
    → (evict_loop (suc c) now s).count < suc c
unfolding evict_loop
evict_loop-lt c now s e old =
    let t : SlidingWindowLimiter = record s { head = (s.head + 1) % s.limit; count = c } in
    ground (arith, old, evict_loop-le c now t refl)

-- A ring whose oldest time fell out of the window shrinks.
evict-lt :
    (now : ℕ) (s : SlidingWindowLimiter)
    → 0 < s.count
    → s.timestamps s.head + s.window < now
    → (evict now s).count < s.count
unfolding evict
evict-lt now s pos old =
    let e : s.count ≡ suc (s.count - 1) = omega (arith, pos) in
    let less = evict_loop-lt (s.count - 1) now s e old in
    let same : evict_loop (suc (s.count - 1)) now s ≡ evict_loop s.count now s =
      ap (λ c. evict_loop c now s) (sym e) in
    omega (arith, less, ap (λ q. q.count) same, e)

refused :
    (b : Bool) (x e : SlidingWindowLimiter) (u until : ℕ)
    → (if◌then◌else◌ {A = SlidingWindowLimiter × Option ℕ} b (x, none) (e, some u)).1 ≡ some until
    → ((if◌then◌else◌ {A = SlidingWindowLimiter × Option ℕ} b (x, none) (e, some u)).0 ≡ e)
      × (b ≡ false)
      × (u ≡ until)
refused true x e u until h = absurd (ground (arith, h))
refused false x e u until h = (refl, refl, ground (arith, h))

wait_round-refused :
    (now at until : ℕ) (s : SlidingWindowLimiter)
    → (wait_round now at s).1 ≡ some until
    → let e = evict now s in
      ((wait_round now at s).0 ≡ e)
      × (ltb e.count e.limit ≡ false)
      × (e.timestamps e.head + e.window ≡ until)
unfolding wait_round
wait_round-refused now at until s h =
    let e = evict now s in
    refused (ltb e.count e.limit) (record_time at e) e (e.timestamps e.head + e.window) until h

wait_round-room :
    (now at : ℕ) (s : SlidingWindowLimiter)
    → (evict now s).count < (evict now s).limit
    → (wait_round now at s).1 ≡ none
unfolding wait_round
wait_round-room now at s h =
    let room : ltb (evict now s).count (evict now s).limit ≡ true = ground (arith, h) in
    rw room refl

-- For a ring within its bounds and a limit that is not zero: a round of `Wait` that begins after the
-- time that the round before said to wait for permits the request.
pub wait_round-permits :
    (now at later at' until : ℕ) (s : SlidingWindowLimiter)
    → IsRing s
    → 0 < s.limit
    → (wait_round now at s).1 ≡ some until
    → until < later
    → (wait_round later at' (wait_round now at s).0).1 ≡ none
wait_round-permits now at later at' until s r pos e lt =
    let (same, full, u) = wait_round-refused now at until s e in
    let ((le, z, inside), l, w, queue) = evict-Evicted now s r in
    let q = evict now s in
    let busy : 0 < q.count = ground (arith, full, l, pos) in
    let old : q.timestamps q.head + q.window < later = omega (arith, u, lt) in
    let (ring, l', w', queue') = evict-Evicted later q (le, z, inside) in
    ap (λ p. (wait_round later at' p).1) same
    ∙ wait_round-room later at' q (omega (arith, evict-lt later q busy old, le, l'))
