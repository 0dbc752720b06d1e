-- ===== src/SlidingWindow/Ring.antt =====
-- The ring buffer is a queue of times: internal/limiter/sliding_window.go.
use native.Mathlib.Nat.{mod-eq_of_lt, mod-eq-sub-mod}
use web3_indexer_go.Base.{
  ℕ, zero, suc, ◌+◌, ◌-◌, ◌%◌, ◌≤◌, ◌<◌, ◌≡◌, refl, sym, ap, ◌∙◌, Bool, true, false, List, [], ◌∷◌,
  ◌++◌, ltb, leb, ◌==◌, if◌then◌else◌, arith, length, inl, inr, Bool-cases,
}
use web3_indexer_go.SlidingWindow.{SlidingWindowLimiter, set, evict_loop, evict, record_time, allow}

-- The place `x` of a ring of `l` places, for `x` below twice `l`.
abbrev wrap : ℕ → ℕ → ℕ
wrap l x = if ltb x l then x else x - l

mod-wrap : (l x : ℕ) → x < l + l → x % l ≡ wrap l x
mod-wrap l x h = elim (Bool-cases (ltb x l)) [
  | inl e ↦ mod-eq_of_lt (ground (arith, e)) ∙ ground (arith, e)
  | inr e ↦
      mod-eq-sub-mod (ground (arith, e)) ∙ mod-eq_of_lt (ground (arith, e, h)) ∙ ground (arith, e)
]

-- The times of `c` places from `h` on, around the ring of `l` places.
abbrev pub entries_from : ℕ → (ℕ → ℕ) → ℕ → ℕ → List ℕ
entries_from l ts zero h = []
entries_from l ts (suc c) h = ts h ∷ entries_from l ts c ((h + 1) % l)

-- The queue that the ring holds, oldest first.
abbrev pub entries : SlidingWindowLimiter → List ℕ
entries s = entries_from s.limit s.timestamps s.count s.head

-- The queue without the leading times that fell out of the window.
abbrev pub drop_expired : ℕ → ℕ → List ℕ → List ℕ
drop_expired window now [] = []
drop_expired window now (t ∷ ts) =
    let rest = drop_expired window now ts in if ltb (t + window) now then rest else t ∷ ts

-- A ring within its bounds.
abbrev pub IsRing : SlidingWindowLimiter → Type 0
IsRing s = (s.count ≤ s.limit) × (s.limit ≡ 0 → s.head ≡ 0) × (0 < s.limit → s.head < s.limit)

entries_from-set :
    (l c h t at : ℕ) (ts : ℕ → ℕ)
    → h < l
    → c < l
    → t ≡ wrap l (h + c)
    → entries_from l (set t at ts) (suc c) h ≡ entries_from l ts c h ++ at ∷ []
entries_from-set l zero h t at ts a b e =
    let same : (h == t) ≡ true = ground (arith, a, e) in rw same refl
entries_from-set l (suc c) h t at ts a b e =
    let other : (h == t) ≡ false = ground (arith, a, b, e) in
    let next : (h + 1) % l ≡ wrap l (h + 1) = mod-wrap l (h + 1) (omega (arith, a)) in
    let first : set t at ts h ≡ ts h = rw other refl in
    let inside : (h + 1) % l < l = rw next (ground (arith, a)) in
    let place : t ≡ wrap l ((h + 1) % l + c) = rw next (ground (arith, a, b, e)) in
    ap (λ x. x ∷ entries_from l (set t at ts) (suc c) ((h + 1) % l)) first
    ∙ ap (◌∷◌ (ts h)) (entries_from-set l c ((h + 1) % l) t at ts inside (omega (arith, b)) place)

length-entries_from : (l : ℕ) (ts : ℕ → ℕ) (c h : ℕ) → length (entries_from l ts c h) ≡ c
length-entries_from l ts zero h = refl
length-entries_from l ts (suc c) h = ap suc (length-entries_from l ts c ((h + 1) % l))

pub length-entries : (s : SlidingWindowLimiter) → length (entries s) ≡ s.count
length-entries s = length-entries_from s.limit s.timestamps s.count s.head

-- What `evict` leaves of a ring: the same bounds, and the queue without its expired front.
abbrev Evicted : ℕ → SlidingWindowLimiter → SlidingWindowLimiter → Type 0
Evicted now s e =
    IsRing e
    × (e.limit ≡ s.limit)
    × (e.window ≡ s.window)
    × (entries e ≡ drop_expired s.window now (entries s))

evict_loop-Evicted :
    (c now : ℕ) (s : SlidingWindowLimiter)
    → s.count ≡ c
    → IsRing s
    → Evicted now s (evict_loop c now s)
unfolding evict_loop
evict_loop-Evicted zero now s e r = (r, refl, refl, rw e refl)
evict_loop-Evicted (suc c) now s e (le, z, lt) =
    let t = record s { head = (s.head + 1) % s.limit; count = c } in
    let inside : s.head < s.limit = lt (omega (arith, le, e)) in
    let next : (s.head + 1) % s.limit ≡ wrap s.limit (s.head + 1) =
      mod-wrap s.limit (s.head + 1) (omega (arith, inside)) in
    let ring : IsRing t = (
      omega (arith, le, e),
      (λ q. absurd (omega (arith, q, inside))),
      (λ q. rw next (ground (arith, inside))),
    ) in
    let (a, b, d, f) = evict_loop-Evicted c now t refl ring in
    let front : entries s ≡ s.timestamps s.head ∷ entries t = rw e refl in
    let queue = ap (drop_expired s.window now) front in
    elim (Bool-cases (ltb (s.timestamps s.head + s.window) now)) [
      | inl k ↦
          let dropped : drop_expired s.window now (s.timestamps s.head ∷ entries t)
              ≡ drop_expired s.window now (entries t) =
            rw k refl in
          rw k (a, b, d, f ∙ sym (queue ∙ dropped))
      | inr k ↦
          let kept : drop_expired s.window now (s.timestamps s.head ∷ entries t)
              ≡ s.timestamps s.head ∷ entries t =
            rw k refl in
          rw k ((le, z, lt), refl, refl, front ∙ sym (queue ∙ kept))
    ]

pub evict-Evicted : (now : ℕ) (s : SlidingWindowLimiter) → IsRing s → Evicted now s (evict now s)
unfolding evict
evict-Evicted now s r = evict_loop-Evicted s.count now s refl r

pub record_time-entries :
    (at : ℕ) (s : SlidingWindowLimiter)
    → IsRing s
    → s.count < s.limit
    → IsRing (record_time at s)
      × ((record_time at s).limit ≡ s.limit)
      × ((record_time at s).window ≡ s.window)
      × (entries (record_time at s) ≡ entries s ++ at ∷ [])
unfolding record_time
record_time-entries at s (le, z, lt) h =
    let inside : s.head < s.limit = lt (omega (arith, h)) in
    (
      (omega (arith, h), z, lt),
      refl,
      refl,
      entries_from-set s.limit s.count s.head ((s.head + s.count) % s.limit) at s.timestamps inside
          h (mod-wrap s.limit (s.head + s.count) (omega (arith, inside, h))),
    )

-- The same limiter on a queue of times.
abbrev pub allow_queue : ℕ → ℕ → ℕ → ℕ → List ℕ → List ℕ × Bool
allow_queue window limit now at q =
    let kept = drop_expired window now q in
    if leb limit (length kept) then (kept, false) else (kept ++ at ∷ [], true)

-- `Allow` on a ring within its bounds keeps the bounds and does what the limiter on a queue does:
-- it drops the times out of the window from the front, permits the request when fewer than the limit are left, and then
-- adds its time at the end.
pub allow-refines :
    (now at : ℕ) (s : SlidingWindowLimiter)
    → IsRing s
    → let (t, ok) = allow now at s in
      IsRing t
      × (t.limit ≡ s.limit)
      × (t.window ≡ s.window)
      × ((entries t, ok) ≡ allow_queue s.window s.limit now at (entries s))
unfolding allow
allow-refines now at s r =
    let (a, b, d, f) = evict-Evicted now s r in
    let size : length (drop_expired s.window now (entries s)) ≡ (evict now s).count =
      sym (ap length f) ∙ length-entries (evict now s) in
    elim (Bool-cases (leb (evict now s).limit (evict now s).count)) [
      | inl k ↦
          let k' : leb s.limit (length (drop_expired s.window now (entries s))) ≡ true =
            ground (arith, k, b, size) in
          rw (k, k') (a, b, d, ap (λ q. (q, false)) f)
      | inr k ↦
          let k' : leb s.limit (length (drop_expired s.window now (entries s))) ≡ false =
            ground (arith, k, b, size) in
          let (ring, l, w, queue) = record_time-entries at (evict now s) a (ground (arith, k)) in
          rw (k, k') (ring, l ∙ b, w ∙ d, ap (λ q. (q, true)) (queue ∙ ap (λ q. q ++ at ∷ []) f))
    ]
