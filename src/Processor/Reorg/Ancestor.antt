-- ===== src/Processor/Reorg/Ancestor.antt =====
-- processor_reorg.go: which height `FindCommonAncestor` returns, and which list of heights.
use Prim.Native.String.{String}
use web3_indexer_go.Base.{
  ℕ, zero, suc, ◌+◌, ◌-◌, ◌≤◌, ◌<◌, ◌≡◌, refl, sym, ap, ◌∙◌, ◌↔◌, ◌⊎◌, inl, inr, Bool, true, false,
  List, [], ◌∷◌, ◌++◌, Option, none, some, arith, leb, equal_fold, Bool-cases, ◌==◌, ==→eq, ==→ne,
  subst,
}
use web3_indexer_go.Processor.Reorg.{
  Found, row, no_rows, query_failed, Search, ancestor, not_found, visit, search_loop,
  find_common_ancestor,
}

-- The heights that are deleted, from the top.
abbrev pub span : ℕ → ℕ → List ℕ
span zero top = []
span (suc c) top = top ∷ span c (top - 1)

span-snoc : (c top : ℕ) → span c top ++ (top - c) ∷ [] ≡ span (suc c) top
span-snoc zero top = ap (λ x. x ∷ []) (omega arith)
span-snoc (suc c) top =
    ap (◌∷◌ top) (ap (λ x. span c (top - 1) ++ x ∷ []) (omega arith) ∙ span-snoc c (top - 1))

abbrev pub is_same_hash : Option String → Found → Option Bool
is_same_hash (some h) no_rows = some false
is_same_hash (some h) (row local) = some (equal_fold local h)
is_same_hash _ _ = none

module _ (chain : ℕ → Option String) (query : ℕ → Found) where
  -- `k` is the greatest height up to `b` where the local row is the chain's, within 1000 blocks,
  -- and both could be read at all heights from `b` down to it.
  pub record IsAncestor (b k : ℕ) (h : String) : Type 0 where
    pub positive : 0 < k
    pub within : k ≤ b
    pub near : b ≤ k + 1000
    pub local : query k ≡ row h
    pub agrees : is_same_hash (chain k) (query k) ≡ some true
    pub above : (n : ℕ) → k < n → n ≤ b → is_same_hash (chain n) (query n) ≡ some false

visit_agrees :
    (again : List ℕ → Search) (k : ℕ) (d : List ℕ) (c : Option String) (f : Found) (h : String)
    → f ≡ row h
    → is_same_hash c f ≡ some true
    → visit again k d c f ≡ ancestor k h d
unfolding visit
visit_agrees again k d none f h e s = absurd (ground arith)
visit_agrees again k d (some x) no_rows h e s = absurd (ground arith)
visit_agrees again k d (some x) query_failed h e s = absurd (ground arith)
visit_agrees again k d (some x) (row l) h e s = ground arith

visit_differs :
    (again : List ℕ → Search) (k : ℕ) (d : List ℕ) (c : Option String) (f : Found)
    → is_same_hash c f ≡ some false
    → visit again k d c f ≡ again (d ++ k ∷ [])
unfolding visit
visit_differs again k d none f s = absurd (ground arith)
visit_differs again k d (some x) no_rows s = refl
visit_differs again k d (some x) query_failed s = absurd (ground arith)
visit_differs again k d (some x) (row l) s = ground arith

-- How a visit can end in an ancestor.
visit-cases :
    (again : List ℕ → Search) (k : ℕ) (d : List ℕ) (c : Option String) (f : Found) {m : ℕ}
    {h : String} {e : List ℕ}
    → visit again k d c f ≡ ancestor m h e
    → ((k ≡ m) × (f ≡ row h) × (is_same_hash c f ≡ some true) × (d ≡ e))
      ⊎ ((is_same_hash c f ≡ some false) × (again (d ++ k ∷ []) ≡ ancestor m h e))
unfolding visit
visit-cases again k d none f r = absurd (ground arith)
visit-cases again k d (some x) no_rows r = inr (refl, r)
visit-cases again k d (some x) query_failed r = absurd (ground arith)
visit-cases again k d (some x) (row l) r = elim (Bool-cases (equal_fold l x)) [
  | inl same ↦ inl (ground arith)
  | inr other ↦ inr (ground arith)
]

module _ (chain : ℕ → Option String) (query : ℕ → Found) where
  search_loop-near :
      (b n : ℕ) (d : List ℕ)
      → b ≤ suc n + 1000
      → search_loop chain query b (suc n) d
        ≡ visit (search_loop chain query b n) (suc n) d (chain (suc n)) (query (suc n))
  unfolding search_loop
  search_loop-near b n d h = ground arith

  search_loop-far :
      (b n : ℕ) (d : List ℕ) → suc n + 1000 < b → search_loop chain query b (suc n) d ≡ not_found
  unfolding search_loop
  search_loop-far b n d h = ground arith

  -- A round at a height that differs.
  search_loop-next :
      (n c b : ℕ)
      → b ≡ suc n + c
      → b ≤ suc n + 1000
      → is_same_hash (chain (suc n)) (query (suc n)) ≡ some false
      → search_loop chain query b (suc n) (span c b) ≡ search_loop chain query b n (span (suc c) b)
  search_loop-next n c b e near s =
      search_loop-near b n (span c b) near
      ∙ visit_differs (search_loop chain query b n) (suc n) (span c b) (chain (suc n))
          (query (suc n)) s
      ∙ ap (search_loop chain query b n)
          (ap (λ x. span c b ++ x ∷ []) (omega arith) ∙ span-snoc c b)

  loop-finds :
      (n c b k : ℕ) (h : String)
      → b ≡ n + c
      → k ≤ n
      → IsAncestor chain query b k h
      → search_loop chain query b n (span c b) ≡ ancestor k h (span (b - k) b)
  loop-finds zero c b k h e below a = absurd (omega (arith, a.positive))
  loop-finds (suc n) c b k h e below a = elim (Bool-cases (k == suc n)) [
    | inl top ↦
        let q : k ≡ suc n = ==→eq k (suc n) top in
        search_loop-near b n (span c b) (omega (arith, a.near))
        ∙ visit_agrees (search_loop chain query b n) (suc n) (span c b) (chain (suc n))
            (query (suc n)) h (subst (λ x. query x ≡ row h) q a.local)
            (subst (λ x. is_same_hash (chain x) (query x) ≡ some true) q a.agrees)
        ∙ ap (λ x. ancestor x h (span c b)) (sym q)
        ∙ ap (λ x. ancestor k h (span x b)) (omega arith)
    | inr under ↦
        let q : ¬ (k ≡ suc n) = ==→ne k (suc n) under in
        search_loop-next n c b e (omega (arith, a.near))
          (a.above (suc n) (omega arith) (omega arith))
        ∙ loop-finds n (suc c) b k h (omega arith) (omega arith) a
  ]

  extended :
      (n b : ℕ)
      → is_same_hash (chain (suc n)) (query (suc n)) ≡ some false
      → ((m : ℕ) → suc n < m → m ≤ b → is_same_hash (chain m) (query m) ≡ some false)
      → (m : ℕ) → n < m
      → m ≤ b
      → is_same_hash (chain m) (query m) ≡ some false
  extended n b s differ m l u = elim (Bool-cases (m == suc n)) [
    | inl here ↦
        subst (λ x. is_same_hash (chain x) (query x) ≡ some false) (sym (==→eq m (suc n) here)) s
    | inr there ↦ differ m (omega (arith, ==→ne m (suc n) there)) u
  ]

  loop_sound :
      (n c b : ℕ) {k : ℕ} {h : String} {d : List ℕ}
      → b ≡ n + c
      → ((m : ℕ) → n < m → m ≤ b → is_same_hash (chain m) (query m) ≡ some false)
      → search_loop chain query b n (span c b) ≡ ancestor k h d
      → IsAncestor chain query b k h × (d ≡ span (b - k) b)
  unfolding search_loop
  loop_sound zero c b e differ r = absurd (ground arith)
  loop_sound (suc n) c b {k} {h} {d} e differ r = elim (Bool-cases (leb b (suc n + 1000))) [
    | inl near ↦
        let le : b ≤ suc n + 1000 = ground arith in
        let r' : visit (search_loop chain query b n) (suc n) (span c b) (chain (suc n))
              (query (suc n))
            ≡ ancestor k h d =
          sym (search_loop-near b n (span c b) le) ∙ r in
        elim (visit-cases (search_loop chain query b n) (suc n) (span c b) (chain (suc n))
          (query (suc n)) r') [
            | inl (q, l, s, t) ↦ (
              record {
                positive = omega arith;
                within = omega arith;
                near = omega arith;
                local = subst (λ x. query x ≡ row h) q l;
                agrees = subst (λ x. is_same_hash (chain x) (query x) ≡ some true) q s;
                above = λ m u v. differ m (omega arith) v;
              },
              sym t ∙ ap (λ x. span x b) (omega arith),
            )
            | inr (s, t) ↦
                loop_sound n (suc c) b (omega arith) (extended n b s differ)
                  (sym (search_loop-next n c b e le s) ∙ r)
          ]
    | inr far ↦
        let none_left : not_found ≡ ancestor k h d =
          sym (search_loop-far b n (span c b) (ground arith)) ∙ r in
        absurd (ground arith)
  ]

  -- `FindCommonAncestor` finds the greatest height, from the reported one down, at which the local
  -- block is the chain's, when there is one within 1000 blocks and no read above it fails, and then
  -- lists the heights between the two for deletion, from the top; it finds no other ancestor.
  pub find_common_ancestor_iff :
      (b k : ℕ) (h : String)
      → IsAncestor chain query b k h
        ↔ (find_common_ancestor chain query b ≡ ancestor k h (span (b - k) b))
  unfolding find_common_ancestor
  find_common_ancestor_iff b k h = (
    λ a. loop-finds b 0 b k h (omega arith) a.within a,
    λ q. (loop_sound b 0 b (omega arith) (λ m u v. absurd (omega arith)) q).0,
  )

  -- No other list comes with an ancestor.
  pub find_common_ancestor-span :
      (b : ℕ) {k : ℕ} {h : String} {d : List ℕ}
      → find_common_ancestor chain query b ≡ ancestor k h d
      → IsAncestor chain query b k h × (d ≡ span (b - k) b)
  unfolding find_common_ancestor
  find_common_ancestor-span b q = loop_sound b 0 b (omega arith) (λ m u v. absurd (omega arith)) q
