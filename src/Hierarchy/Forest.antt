-- ===== src/Hierarchy/Forest.antt =====
-- Heaps in which every list of children is in order, and a span more.
use mathlib.Core.Option
use dapper_lite.Prelude.{
  ℕ, zero, suc, ◌<◌, ◌≡◌, refl, ap, sym, ◌∙◌, false, Bool-cases, inl, inr, none, some, List, [],
  ◌∷◌, ◌++◌, map, arith, ◌==◌, ==→eq, length, get_elem?, All, length-append,
}
use dapper_lite.Core.{Span, SpanPtr}
use dapper_lite.Hierarchy.{Heap}
use dapper_lite.Hierarchy.Chains.{field, Chain, get-append, get-append_last}
use dapper_lite.Hierarchy.Siblings.{get→lt, field→get}
use dapper_lite.Hierarchy.Children.{points, children_below, Linked, strip}
use dapper_lite.Hierarchy.Ownership.{down_from, All-down_from}
use dapper_lite.Hierarchy.Numbers.{field-strip}

-- The `parent` of the span at an address.
unfoldable pub parent_in : Heap → ℕ → SpanPtr
parent_in heap j = elim (get_elem? heap j) [ none ↦ none | some s ↦ s.parent ]

abbrev pub IsBelow : ℕ → SpanPtr → Type 0
IsBelow n none = Unit {0}
IsBelow n (some p) = p < n

-- Every span's list of children holds exactly the spans whose `parent` it is, in the order of
-- creation, and no `parent` dangles.
pub record IsForest (heap : Heap) : Type 0 where
  pub children : All (Linked heap (parent_in heap) (length heap)) (down_from (length heap))
  pub parents : All (λ j. IsBelow (length heap) (parent_in heap j)) (down_from (length heap))

pub below : (P : ℕ → Type 0) (n j : ℕ) → All P (down_from n) → j < n → P j
below P zero j a h = absurd (omega arith)
below P (suc n) j a h = elim (Bool-cases (j == n)) [
  | inl e ↦ let same : j ≡ n = ==→eq j n e in rw same a.0
  | inr e ↦ below P n j a.1 (ground (arith, e))
]

pub Chain-grow :
    (link : Span → SpanPtr) (heap heap' : Heap) (ptr : SpanPtr) (xs : List ℕ)
    → ((x : ℕ) → x < length heap → field link heap' x ≡ field link heap x)
    → Chain link heap ptr xs
    → Chain link heap' ptr xs
Chain-grow link heap heap' ptr [] same c = c
Chain-grow link heap heap' ptr (x ∷ xs) same (e, nxt, at_x, rest) =
    let (s, get_x, _) = field→get link heap x at_x in
    (e, nxt, same x (get→lt heap x get_x) ∙ at_x, Chain-grow link heap heap' nxt xs same rest)

children_below-congr :
    (par par' : ℕ → SpanPtr) (k q : ℕ)
    → ((j : ℕ) → j < k → par' j ≡ par j)
    → children_below par' k q ≡ children_below par k q
unfolding children_below
children_below-congr par par' zero q h = refl
children_below-congr par par' (suc k) q h =
    rw (h k (omega arith), children_below-congr par par' k q (λ j l. h j (omega arith))) refl

children_below-nil :
    (par : ℕ → SpanPtr) (k q : ℕ)
    → ((j : ℕ) → j < k → points (par j) q ≡ false)
    → children_below par k q ≡ []
unfolding children_below
children_below-nil par zero q h = refl
children_below-nil par (suc k) q h =
    rw (h k (omega arith), children_below-nil par k q (λ j l. h j (omega arith))) refl

IsBelow-points : (n : ℕ) (o : SpanPtr) → IsBelow n o → points o n ≡ false
IsBelow-points n none h = refl
IsBelow-points n (some p) h = ground arith

pub forest :
    (heap : Heap) (n : ℕ) (par : ℕ → SpanPtr)
    → length heap ≡ n
    → parent_in heap ≡ par
    → ((q : ℕ) → q < n → Linked heap par n q)
    → ((j : ℕ) → j < n → IsBelow n (par j))
    → IsForest heap
forest heap n par size same linked bound = record {
  children = rw (size, same) (All-down_from n linked);
  parents = rw (size, same) (All-down_from n bound);
}

pub IsBelow-suc : (n : ℕ) (o : SpanPtr) → IsBelow n o → IsBelow (suc n) o
IsBelow-suc n none h = tt
IsBelow-suc n (some p) h = omega (arith, h)

parent_in-field :
    (heap : Heap) (j : ℕ)
    → parent_in heap j ≡ elim (field (λ s. s.parent) heap j) [ none ↦ none | some p ↦ p ]
unfolding parent_in
parent_in-field [] j = refl
parent_in-field (s ∷ heap) zero = refl
parent_in-field (s ∷ heap) (suc j) = parent_in-field heap j

pub parent_in-strip :
    (heap heap' : Heap) (j : ℕ)
    → map strip heap' ≡ map strip heap
    → parent_in heap' j ≡ parent_in heap j
parent_in-strip heap heap' j e =
    parent_in-field heap' j
    ∙ ap (λ o. elim o [ none ↦ none | some p ↦ p ])
        (field-strip (λ s. s.parent) (λ s. refl) heap heap' j e)
    ∙ sym (parent_in-field heap j)

pub Chain-strip :
    (heap heap' : Heap) (ptr : SpanPtr) (xs : List ℕ)
    → map strip heap' ≡ map strip heap
    → Chain (λ s. s.owner_next) heap ptr xs
    → Chain (λ s. s.owner_next) heap' ptr xs
Chain-strip heap heap' ptr xs e =
    Chain-grow (λ s. s.owner_next) heap heap' ptr xs
      (λ x _. field-strip (λ s. s.owner_next) (λ s. refl) heap heap' x e)

-- The heap behind `calloc` and the assignments, before the new span is linked.
module _ (heap : Heap) (new : Span) (f : IsForest heap) (next_null : new.next_sibling ≡ none)
    (first_null : new.first_child ≡ none) where
  abbrev pub grown : Heap
  grown = heap ++ (new ∷ [])

  pub length-grown : length grown ≡ suc (length heap)
  length-grown = omega (arith, length-append {A = Span} heap (new ∷ []))

  pub field-grown :
      {A : Type 0} (g : Span → A) (x : ℕ) → x < length heap → field g grown x ≡ field g heap x
  field-grown g x h = ap (Option.map g) (get-append heap new x h)

  pub field-new : {A : Type 0} (g : Span → A) → field g grown (length heap) ≡ some (g new)
  field-new g = ap (Option.map g) (get-append_last heap new)

  pub parent_in-grown : (j : ℕ) → j < length heap → parent_in grown j ≡ parent_in heap j
  unfolding parent_in
  parent_in-grown j h = rw (get-append heap new j h, parent_in)

  pub parent_in-new : parent_in grown (length heap) ≡ new.parent
  unfolding parent_in
  parent_in-new = rw (get-append_last heap new, parent_in)

  pub Linked-grown : (q : ℕ) → q < length grown → Linked grown (parent_in grown) (length heap) q
  Linked-grown q h = elim (Bool-cases (q == length heap)) [
    | inl e ↦
        let same : q ≡ length heap = ==→eq q (length heap) e in
        rw same (
          none,
          field-new (λ s. s.first_child) ∙ ap some first_null,
          rw
              (children_below-nil (parent_in grown) (length heap) (length heap) (λ j l.
                IsBelow-points (length heap) (parent_in grown j) (
                  rw (parent_in-grown j l) (
                    below (λ i. IsBelow (length heap) (parent_in heap i)) (length heap) j f.parents
                      l))))
              refl,
        )
    | inr e ↦
        let old : q < length heap = ground (arith, e, length-grown) in
        let (first, at_q, chain) =
          below (Linked heap (parent_in heap) (length heap)) (length heap) q f.children old in
        (
          first,
          field-grown (λ s. s.first_child) q old ∙ at_q,
          rw
              (children_below-congr (parent_in heap) (parent_in grown) (length heap) q
                parent_in-grown)
              (Chain-grow (λ s. s.next_sibling) heap grown first
                (children_below (parent_in heap) (length heap) q)
                (field-grown (λ s. s.next_sibling)) chain),
        )
  ]
