-- ===== src/CriticalPath/Laws.antt =====
-- The critical path runs from the root to a leaf, always on to the longest child.
use dapper_lite.Prelude.{
  ℕ, zero, suc, ◌+◌, ◌≤◌, ◌≡◌, refl, ap, List, [], ◌∷◌, arith, ltb, if◌then◌else◌, Bool, true,
  false, inl, inr, ◌⊎◌,
}
use dapper_lite.Core.{Span}
use dapper_lite.CriticalPath.{
  SpanTree, null, node, span_duration_us, max_child_depth, critical_path_depth, critical_among,
  find_critical_child, path_from, compute_critical_path,
}

-- The siblings from `t` on.
abbrev IsSibling : SpanTree → SpanTree → Type 0
IsSibling c null = ⊥
IsSibling c (node span f n) = (c ≡ node span f n) ⊎ IsSibling c n

abbrev duration : SpanTree → ℕ
duration null = 0
duration (node span f n) = span_duration_us span

-- None of the siblings from `t` on takes longer than `d`.
abbrev NoneLonger : ℕ → SpanTree → Type 0
NoneLonger d null = Unit {0}
NoneLonger d (node span f n) = (span_duration_us span ≤ d) × NoneLonger d n

-- Paths from `t` that go on to a longest child as long as there is one.
pub data IsCriticalPath : SpanTree → List Span → Type 0 where
  leaf : (span : Span) (n : SpanTree) → IsCriticalPath (node span null n) (span ∷ [])
  onward :
      (span : Span) (f n : SpanTree) (child : SpanTree) {path : List Span}
      → IsSibling child f
      → NoneLonger (duration child) f
      → IsCriticalPath child path
      → IsCriticalPath (node span f n) (span ∷ path)

-- The maximum over siblings is at least the depth of each.
best-le : (best : ℕ) (t : SpanTree) → best ≤ max_child_depth best t
unfolding max_child_depth
best-le best null = omega arith
best-le best (node span f n) =
    let d = 1 + max_child_depth 0 f in
    let b = if ltb best d then d else best in
    let h : best ≤ b = ground arith in omega (arith, best-le b n)

depth-le-max :
    (best : ℕ) (c t : SpanTree) → IsSibling c t → critical_path_depth c ≤ max_child_depth best t
unfolding max_child_depth critical_path_depth
depth-le-max best c null s = absurd s
depth-le-max best c (node span f n) (inl e) =
    let d = 1 + max_child_depth 0 f in
    let b = if ltb best d then d else best in
    let h : d ≤ b = ground arith in rw e (omega (arith, best-le b n))
depth-le-max best c (node span f n) (inr s) =
    let d = 1 + max_child_depth 0 f in depth-le-max (if ltb best d then d else best) c n s

NoneLonger-le : (d e : ℕ) (t : SpanTree) → d ≤ e → NoneLonger d t → NoneLonger e t
NoneLonger-le d e null h l = l
NoneLonger-le d e (node span f n) h l = (omega (arith, l.0), NoneLonger-le d e n h l.1)

-- What the loop of `find_critical_child` has found among the siblings `t`, from `best` on.
abbrev Longest : SpanTree → SpanTree → SpanTree → Type 0
Longest best t r =
    (span : Span) × (f : SpanTree) × (n : SpanTree) × (r ≡ node span f n)
    × ((r ≡ best) ⊎ IsSibling r t)
    × (duration best ≤ duration r)
    × NoneLonger (duration r) t

critical_among-Longest :
    (best : Span) (c n t : SpanTree) → Longest (node best c n) t (critical_among (node best c n) t)
unfolding critical_among
critical_among-Longest best c n null = (best, c, n, refl, inl refl, omega arith, tt)
critical_among-Longest best c n (node span f m) =
    step (ltb (span_duration_us best) (span_duration_us span)) refl
      (critical_among-Longest span f m m) (critical_among-Longest best c n m)
  where
    longer :
        ltb (span_duration_us best) (span_duration_us span) ≡ true
        → {r : SpanTree} → Longest (node span f m) m r
        → Longest (node best c n) (node span f m) r
    longer e (s, g, k, r_eq, found, most, rest) =
        (s, g, k, r_eq, inr found, ground arith, (most, rest))

    kept :
        ltb (span_duration_us best) (span_duration_us span) ≡ false
        → {r : SpanTree} → Longest (node best c n) m r
        → Longest (node best c n) (node span f m) r
    kept e (s, g, k, r_eq, inl same, most, rest) =
        (s, g, k, r_eq, inl same, most, (ground arith, rest))
    kept e (s, g, k, r_eq, inr found, most, rest) =
        (s, g, k, r_eq, inr (inr found), most, (ground arith, rest))

    step :
        (b : Bool)
        → ltb (span_duration_us best) (span_duration_us span) ≡ b
        → Longest (node span f m) m (critical_among (node span f m) m)
        → Longest (node best c n) m (critical_among (node best c n) m)
        → Longest
            (node best c n)
            (node span f m)
            (critical_among (if b then node span f m else node best c n) m)
    step true e p q = longer e p
    step false e p q = kept e q

depth_eq :
    {room : ℕ} {r t : SpanTree}
    → r ≡ t
    → critical_path_depth r ≤ room
    → critical_path_depth t ≤ room
depth_eq e h = omega (arith, ap (λ t. critical_path_depth t) e, h)

path_from_null : (room : ℕ) → path_from room null ≡ []
unfolding path_from
path_from_null zero = refl
path_from_null (suc room) = refl

path_from-IsCriticalPath :
    (room : ℕ) (span : Span) (f n : SpanTree)
    → critical_path_depth (node span f n) ≤ room
    → IsCriticalPath (node span f n) (path_from room (node span f n))
unfolding path_from find_critical_child critical_path_depth max_child_depth critical_among
path_from-IsCriticalPath zero span f n h = absurd (omega arith)
path_from-IsCriticalPath (suc room) span null n h = rw (path_from_null room) (leaf span n)
path_from-IsCriticalPath (suc room) span (node s c m) n h =
    go (critical_among (node s c m) m) (critical_among-Longest s c m m)
      λ s' c' m' l. path_from-IsCriticalPath room s' c' m' l
  where
    sibling : {r : SpanTree} → (r ≡ node s c m) ⊎ IsSibling r m → IsSibling r (node s c m)
    sibling x = x

    go :
        (r : SpanTree)
        → Longest (node s c m) m r
        → ((s' : Span) (c' m' : SpanTree)
            → critical_path_depth (node s' c' m') ≤ room
            → IsCriticalPath (node s' c' m') (path_from room (node s' c' m')))
        → IsCriticalPath (node span (node s c m) n) (span ∷ path_from room r)
    go r (s', c', m', r_eq, found, most, rest) ih =
        let shallow : critical_path_depth r ≤ room =
          omega (arith, depth-le-max 0 r (node s c m) (sibling found), h) in
        onward span (node s c m) n r (sibling found) (most, rest)
          (rw r_eq (ih s' c' m' (depth_eq r_eq shallow)))

-- On a tree with a root, `compute_critical_path` gives a whole critical path: it begins at the
-- root, goes on from each node to one of its children that no other child outlasts, and ends at a
-- node without children, so the array of `critical_path_depth` entries is never too short.
pub compute_critical_path-IsCriticalPath :
    (span : Span) (f n : SpanTree)
    → IsCriticalPath (node span f n) (compute_critical_path (node span f n))
unfolding compute_critical_path
compute_critical_path-IsCriticalPath span f n =
    path_from-IsCriticalPath (critical_path_depth (node span f n)) span f n (omega arith)
