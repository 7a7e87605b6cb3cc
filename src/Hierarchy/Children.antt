-- ===== src/Hierarchy/Children.antt =====
-- The children of a span as a list.
use dapper_lite.Prelude.{
  ℕ, zero, suc, ◌<◌, ◌≤◌, ◌≡◌, refl, ap, Bool, true, false, Bool-cases, inl, inr, none, some, List,
  [], ◌∷◌, ◌++◌, map, arith, ◌==◌, ==→eq, if◌then◌else◌, length, All, length-append,
}
use dapper_lite.Core.{Span, SpanPtr}
use dapper_lite.Hierarchy.{Heap, modify}
use dapper_lite.Hierarchy.Chains.{field, Chain, Ascends, Ascends-snoc, All-map, All-snoc}

abbrev pub points : SpanPtr → ℕ → Bool
points none p = false
points (some q) p = q == p

-- The spans below `k` that have `p` for a parent, in the order of their addresses.
unfoldable pub children_below : (ℕ → SpanPtr) → ℕ → ℕ → List ℕ
children_below par zero p = []
children_below par (suc k) p =
    let before = children_below par k p in if points (par k) p then before ++ (k ∷ []) else before

points→eq : (o : SpanPtr) (p : ℕ) → points o p ≡ true → o ≡ some p
points→eq none p h = cc
points→eq (some q) p h = ap some (==→eq q p h)

module _ (par : ℕ → SpanPtr) (p : ℕ) where
  pub children_below-All : (k : ℕ) → All (λ x. (x < k) × (par x ≡ some p)) (children_below par k p)
  unfolding children_below
  children_below-All zero = tt
  children_below-All (suc k) =
      let before : All (λ x. (x < suc k) × (par x ≡ some p)) (children_below par k p) =
        All-map (children_below par k p) (λ x h. (omega (arith, h.0), h.1))
          (children_below-All k) in
      elim (Bool-cases (points (par k) p)) [
        | inl e ↦ rw e (
            All-snoc (λ x. (x < suc k) × (par x ≡ some p)) (children_below par k p) k before
              (omega arith, points→eq (par k) p e))
        | inr e ↦ rw e before
      ]

  pub children_below-Ascends : (k : ℕ) → Ascends 0 (children_below par k p)
  unfolding children_below
  children_below-Ascends zero = tt
  children_below-Ascends (suc k) = elim (Bool-cases (points (par k) p)) [
    | inl e ↦ rw e (
        Ascends-snoc 0 (children_below par k p) k (children_below-Ascends k)
          (All-map (children_below par k p) (λ x h. h.0) (children_below-All k)) (omega arith))
    | inr e ↦ rw e (children_below-Ascends k)
  ]

  pub length-children_below : (k : ℕ) → length (children_below par k p) ≤ k
  unfolding children_below
  length-children_below zero = omega arith
  length-children_below (suc k) =
      let l = length-append {A = ℕ} (children_below par k p) (k ∷ []) in
      ground (arith, length-children_below k, l)

-- Each span's list of children, among the first `k` spans.
abbrev pub Linked : Heap → (ℕ → SpanPtr) → ℕ → ℕ → Type 0
Linked heap par k p =
    (first : SpanPtr) × (field (λ s. s.first_child) heap p ≡ some first)
    × Chain (λ s. s.next_sibling) heap first (children_below par k p)

module _ (par : ℕ → SpanPtr) (k : ℕ) where
  pub children_below_self :
      (p : ℕ) → par k ≡ some p → children_below par (suc k) p ≡ children_below par k p ++ (k ∷ [])
  unfolding children_below
  children_below_self p e = let same : (p == p) ≡ true = ground arith in rw (e, same)

  pub children_below-other :
      (p q : ℕ)
      → par k ≡ some p
      → (p == q) ≡ false
      → children_below par (suc k) q ≡ children_below par k q
  unfolding children_below
  children_below-other p q e other = rw (e, other)

  pub children_below-none :
      (q : ℕ) → par k ≡ none → children_below par (suc k) q ≡ children_below par k q
  unfolding children_below
  children_below-none q e = rw e

-- A span without its place among children.
abbrev pub strip : Span → Span
strip s = record s { first_child = none; next_sibling = none }

pub strip-modify :
    (f : Span → Span)
    → ((s : Span) → strip (f s) ≡ strip s)
    → (heap : Heap) (p : ℕ) → map strip (modify heap p f) ≡ map strip heap
strip-modify f same [] p = refl
strip-modify f same (s ∷ heap) zero = ap (λ t. t ∷ map strip heap) (same s)
strip-modify f same (s ∷ heap) (suc p) = ap (λ t. strip s ∷ t) (strip-modify f same heap p)
