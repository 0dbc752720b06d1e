-- ===== src/SlidingWindow/Quota.antt =====
-- How many requests a window can have: internal/limiter/sliding_window.go.
use mathlib.Core.List.{append_assoc}
use web3_indexer_go.Base.{
  ℕ, suc, ◌+◌, ◌≤◌, ◌<◌, ◌≡◌, refl, sym, ap, ◌∙◌, List, [], ◌∷◌, ◌++◌, All, ltb, leb, if◌then◌else◌,
  arith, length, inl, inr, Bool-cases, subst,
}
use web3_indexer_go.SlidingWindow.{SlidingWindowLimiter, allow, new_sliding_window_limiter}
use web3_indexer_go.SlidingWindow.Ring.{
  IsRing, entries, drop_expired, allow_queue, allow-refines, length-entries,
}

-- How many of the times are within the window that ends at `t`.
abbrev pub recent : ℕ → ℕ → List ℕ → ℕ
recent window t [] = 0
recent window t (h ∷ hs) =
    let rest = recent window t hs in if leb t (h + window) then suc rest else rest

-- The calls of `Allow`, each with its two clock readings, and the times of those permitted, after
-- the times in `past`.
abbrev pub permit : List (ℕ × ℕ) → List ℕ → SlidingWindowLimiter → SlidingWindowLimiter × List ℕ
permit [] past s = (s, past)
permit ((now, at) ∷ calls) past s =
    permit calls (if (allow now at s).1 then past ++ at ∷ [] else past) (allow now at s).0

-- The readings of the clock never go back, from `t` on.
abbrev pub IsClocked : ℕ → List (ℕ × ℕ) → Type 0
IsClocked t [] = Unit
IsClocked t ((now, at) ∷ calls) = (t ≤ now) × (now ≤ at) × IsClocked at calls

-- The last reading of the clock.
abbrev pub last_reading : ℕ → List (ℕ × ℕ) → ℕ
last_reading t [] = t
last_reading t ((now, at) ∷ calls) = last_reading at calls

abbrev Expired : ℕ → ℕ → List ℕ → Type 0
Expired window t hs = All (λ h. h + window < t) hs

Expired-later : (window t u : ℕ) (hs : List ℕ) → t ≤ u → Expired window t hs → Expired window u hs
Expired-later window t u [] le h = tt
Expired-later window t u (x ∷ hs) le (a, h) =
    (omega (arith, a, le), Expired-later window t u hs le h)

Expired-append :
    (window t : ℕ) (hs ks : List ℕ)
    → Expired window t hs
    → Expired window t ks
    → Expired window t (hs ++ ks)
Expired-append window t [] ks h k = k
Expired-append window t (x ∷ hs) ks (a, h) k = (a, Expired-append window t hs ks h k)

recent-le : (window t : ℕ) (hs : List ℕ) → recent window t hs ≤ length hs
recent-le window t [] = omega arith
recent-le window t (h ∷ hs) = ground (arith, recent-le window t hs)

recent_expired :
    (window t : ℕ) (hs ks : List ℕ)
    → Expired window t hs
    → recent window t (hs ++ ks) ≡ recent window t ks
recent_expired window t [] ks h = refl
recent_expired window t (x ∷ hs) ks (a, h) = ground (arith, recent_expired window t hs ks h, a)

-- What `drop_expired` drops.
dropped :
    (window now : ℕ) (q : List ℕ)
    → (d : List ℕ) × (q ≡ d ++ drop_expired window now q) × Expired window now d
dropped window now [] = ([], refl, tt)
dropped window now (t ∷ q) = elim (Bool-cases (ltb (t + window) now)) [
  | inl e ↦
      let (d, same, old) = dropped window now q in
      rw e (t ∷ d, ap (◌∷◌ t) same, (ground (arith, e), old))
  | inr e ↦ rw e ([], refl, tt)
]

-- The permitted times are old ones and then those in the ring.
abbrev Accounted : ℕ → SlidingWindowLimiter → List ℕ → Type 0
Accounted t s past = IsRing s × ((d : List ℕ) × (past ≡ d ++ entries s) × Expired s.window t d)

permit-Accounted :
    (window limit t now at : ℕ) (past q : List ℕ) (d : List ℕ)
    → past ≡ d ++ q
    → Expired window t d
    → t ≤ now
    → now ≤ at
    → (k : List ℕ) × ((if (allow_queue window limit now at q).1 then past ++ at ∷ [] else past)
        ≡ k ++ (allow_queue window limit now at q).0)
      × Expired window at k
permit-Accounted window limit t now at past q d e old a b =
    let (g, same, gone) = dropped window now q in
    let k = d ++ g in
    let older : Expired window at k =
      Expired-append window at d g (Expired-later window t at d (omega (arith, a, b)) old)
        (Expired-later window now at g b gone) in
    let split : past ≡ k ++ drop_expired window now q =
      e ∙ ap (λ l. d ++ l) same ∙ sym (append_assoc d g (drop_expired window now q)) in
    elim (Bool-cases (leb limit (length (drop_expired window now q)))) [
      | inl c ↦ rw c (k, split, older)
      | inr c ↦ rw c (
        k,
        ap (λ l. l ++ at ∷ []) split ∙ append_assoc k (drop_expired window now q) (at ∷ []),
        older,
      )
    ]

allow-Accounted :
    (t now at : ℕ) (past : List ℕ) (s : SlidingWindowLimiter)
    → Accounted t s past
    → t ≤ now
    → now ≤ at
    → Accounted at (allow now at s).0 (if (allow now at s).1 then past ++ at ∷ [] else past)
      × ((allow now at s).0.limit ≡ s.limit)
      × ((allow now at s).0.window ≡ s.window)
allow-Accounted t now at past s (r, (d, e, old)) a b =
    let (ring, l, w, same) = allow-refines now at s r in
    let (k, split, gone) =
      permit-Accounted s.window s.limit t now at past (entries s) d e old a b in
    let queue : entries (allow now at s).0 ≡ (allow_queue s.window s.limit now at (entries s)).0 =
      ap (λ p. p.0) same in
    let ok : (allow now at s).1 ≡ (allow_queue s.window s.limit now at (entries s)).1 =
      ap (λ p. p.1) same in
    let grown : (if (allow now at s).1 then past ++ at ∷ [] else past)
        ≡ k ++ entries (allow now at s).0 =
      ap (λ b. if b then past ++ at ∷ [] else past) ok ∙ split ∙ ap (λ q. k ++ q) (sym queue) in
    let gone' : Expired (allow now at s).0.window at k = subst (λ w. Expired w at k) (sym w) gone in
    ((ring, (k, grown, gone')), l, w)

permit-all :
    (calls : List (ℕ × ℕ)) (t : ℕ) (past : List ℕ) (s : SlidingWindowLimiter)
    → Accounted t s past
    → IsClocked t calls
    → Accounted (last_reading t calls) (permit calls past s).0 (permit calls past s).1
      × ((permit calls past s).0.limit ≡ s.limit)
      × ((permit calls past s).0.window ≡ s.window)
permit-all [] t past s h c = (h, refl, refl)
permit-all ((now, at) ∷ calls) t past s h (a, b, c) =
    let (next, l, w) = allow-Accounted t now at past s h a b in
    let (all, l', w') =
      permit-all calls at (if (allow now at s).1 then past ++ at ∷ [] else past) (allow now at s).0
        next c in
    (all, l' ∙ l, w' ∙ w)

-- While the readings of the clock never go back, a new limiter has permitted no more requests
-- within the window that ends at the last reading than its limit, after any sequence of calls.
pub permit-quota :
    (limit window t : ℕ) (calls : List (ℕ × ℕ))
    → IsClocked t calls
    → recent window
        (last_reading t calls)
        (permit calls [] (new_sliding_window_limiter limit window)).1
      ≤ limit
unfolding new_sliding_window_limiter
permit-quota limit window t calls c =
    let s = new_sliding_window_limiter limit window in
    let (((le, z, lt), (d, split, old)), l, w) =
      permit-all calls t [] s (((omega arith), (λ e. refl), (λ h. h)), ([], refl, tt)) c in
    let e = (permit calls [] s).0 in
    let old' : Expired window (last_reading t calls) d =
      subst (λ w. Expired w (last_reading t calls) d) w old in
    omega (
      arith,
      ap (recent window (last_reading t calls)) split,
      recent_expired window (last_reading t calls) d (entries e) old',
      recent-le window (last_reading t calls) (entries e),
      length-entries e,
      le,
      l,
    )
