-- ===== src/Hierarchy/Numbers.antt =====
-- The tree that the parent numbers describe.
use dapper_lite.Prelude.{
  ℕ, zero, suc, ◌+◌, ◌<◌, ◌≡◌, refl, ap, ap₂, sym, ◌∙◌, Bool-cases, inl, inr, none, some, [], ◌∷◌,
  map, arith, ◌==◌, if◌then◌else◌, length, get_elem?,
}
use dapper_lite.Core.{Span, SpanPtr}
use dapper_lite.Hierarchy.{Heap, modify, if_null, find_span_from, find_span_by_id}
use dapper_lite.Hierarchy.Chains.{field}
use dapper_lite.Hierarchy.Children.{strip}
use dapper_lite.Hierarchy.Ownership.{core}

some_inj : {a b : ℕ} → some a ≡ some b → a ≡ b
some_inj h = cc

-- The parent that the numbers give to the span `i`.
unfoldable pub parent_of : Heap → ℕ → SpanPtr
parent_of spans i = elim (get_elem? spans i) [
  | none ↦ none
  | some s ↦ if s.parent_span_id == 0 then none else find_span_by_id spans s.parent_span_id
]

-- The first of the spans below `k` without a parent number.
unfoldable pub first_root : Heap → ℕ → SpanPtr
first_root spans zero = none
first_root spans (suc k) =
    if_null (first_root spans k)
      (elim (get_elem? spans k) [
        | none ↦ none
        | some s ↦ if s.parent_span_id == 0 then some k else none
      ])
      (λ r. some r)

-- What does not look at the links is the same before and after.
pub map-strip :
    {A : Type 0} (f : Span → A)
    → ((s : Span) → f (strip s) ≡ f s)
    → (heap heap' : Heap) → map strip heap' ≡ map strip heap
    → map f heap' ≡ map f heap
map-strip f same heap heap' e = through heap' ∙ ap (map f) e ∙ sym (through heap)
  where
    through : (h : Heap) → map f h ≡ map f (map strip h)
    through [] = refl
    through (s ∷ h) = ap₂ ◌∷◌ (sym (same s)) (through h)

pub field-map :
    {A : Type 0} (g : Span → A) (heap : Heap) (j : ℕ) → field g heap j ≡ get_elem? (map g heap) j
field-map g [] j = refl
field-map g (s ∷ heap) zero = refl
field-map g (s ∷ heap) (suc j) = field-map g heap j

pub field-strip :
    {A : Type 0} (g : Span → A)
    → ((s : Span) → g (strip s) ≡ g s)
    → (heap heap' : Heap) (j : ℕ) → map strip heap' ≡ map strip heap
    → field g heap' j ≡ field g heap j
field-strip g same heap heap' j e =
    field-map g heap' j
    ∙ ap (λ m. get_elem? m j) (map-strip g same heap heap' e)
    ∙ sym (field-map g heap j)

pub core-modify :
    (f : Span → Span)
    → ((s : Span) → core (f s) ≡ core s)
    → (heap : Heap) (p : ℕ) → map core (modify heap p f) ≡ map core heap
core-modify f same [] p = refl
core-modify f same (s ∷ heap) zero = ap (λ t. t ∷ map core heap) (same s)
core-modify f same (s ∷ heap) (suc p) = ap (λ t. core s ∷ t) (core-modify f same heap p)

find_span_from-core :
    (i : ℕ) (heap : Heap) (id : ℕ) → find_span_from i heap id ≡ find_span_from i (map core heap) id
unfolding find_span_from
find_span_from-core i [] id = refl
find_span_from-core i (s ∷ heap) id =
    ap (λ r. if s.span_id == id then some i else r) (find_span_from-core (suc i) heap id)

pub find_span_by_id-core :
    (heap spans : Heap) (id : ℕ)
    → map core heap ≡ map core spans
    → find_span_by_id heap id ≡ find_span_by_id spans id
unfolding find_span_by_id
find_span_by_id-core heap spans id e =
    find_span_from-core 0 heap id
    ∙ ap (λ h. find_span_from 0 h id) e
    ∙ sym (find_span_from-core 0 spans id)

find_span_from-lt :
    (i : ℕ) (heap : Heap) (id : ℕ) {p : ℕ} → find_span_from i heap id ≡ some p → p < i + length heap
unfolding find_span_from
find_span_from-lt i [] id h = cc
find_span_from-lt i (s ∷ heap) id h = elim (Bool-cases (s.span_id == id)) [
  | inl e ↦ omega (arith, some_inj (rw e at h))
  | inr e ↦ omega (arith, find_span_from-lt (suc i) heap id (rw e at h))
]

pub find_span_by_id-lt :
    (heap : Heap) (id : ℕ) {p : ℕ} → find_span_by_id heap id ≡ some p → p < length heap
unfolding find_span_by_id
find_span_by_id-lt heap id h = omega (arith, find_span_from-lt 0 heap id h)
