-- ===== src/Hierarchy/Stages.antt =====
-- What holds between the rounds of the second loop of `rebuild_hierarchy`.
use dapper_lite.Prelude.{
  ℕ, suc, ◌<◌, ◌≤◌, ◌≡◌, ◌≢◌, refl, ap, ◌∙◌, true, Bool-cases, inl, inr, Option, none, some, map,
  arith, ltb, ◌==◌, ==→eq, if◌then◌else◌, length,
}
use dapper_lite.Prelude.Outcome.{ok}
use dapper_lite.Core.{Span, SpanPtr}
use dapper_lite.Hierarchy.{Heap, Trace, modify, attach}
use dapper_lite.Hierarchy.Chains.{
  field, next_of, Chain-frame, All-map, field-modify, field-modify_ne, field-modify_self,
  length-modify,
}
use dapper_lite.Hierarchy.Siblings.{update_lem}
use dapper_lite.Hierarchy.Children.{children_below, children_below-All, children_below-none, Linked}
use dapper_lite.Hierarchy.Linking.{link_child-Links}
use dapper_lite.Hierarchy.Ownership.{last_below, core}
use dapper_lite.Hierarchy.Numbers.{parent_of, first_root, map-strip, field-strip, core-modify}

-- The trace and the heap after `k` rounds of the second loop.
pub record Stage (spans heap : Heap) (trace : Trace) (k : ℕ) : Type 0 where
  pub size : length heap ≡ length spans
  pub linked : (q : ℕ) → q < length heap → Linked heap (parent_of spans) k q
  pub fresh : (j : ℕ) → k ≤ j → j < length heap → next_of heap j ≡ some none
  pub parents :
      (j : ℕ)
      → j < length heap
      → field (λ s. s.parent) heap j ≡ some (if ltb j k then parent_of spans j else none)
  pub owners : (j : ℕ) → j < length heap → field (λ s. s.owner_next) heap j ≡ some (last_below j)
  pub same : map core heap ≡ map core spans
  pub root : trace.root_span ≡ first_root spans k
  pub all : trace.all_spans ≡ last_below (length spans)

parents_up :
    (par : ℕ → SpanPtr) (k j : ℕ)
    → par k ≡ none
    → ◌≡◌ {A = Option SpanPtr}
        (some (if ltb j k then par j else none))
        (some (if ltb j (suc k) then par j else none))
parents_up par k j e = elim (Bool-cases (j == k)) [
  | inl same ↦ let eq : j ≡ k = ==→eq j k same in rw eq (ground (arith, e))
  | inr other ↦ ground (arith, other)
]

module _ (spans heap : Heap) (trace : Trace) (k : ℕ) (st : Stage spans heap trace k)
    (k_in : k < length heap) where
  -- A round that leaves the span without a parent.
  pub Stage-none :
      (trace' : Trace)
      → parent_of spans k ≡ none
      → trace'.root_span ≡ first_root spans (suc k)
      → trace'.all_spans ≡ trace.all_spans
      → Stage spans heap trace' (suc k)
  Stage-none trace' alone r a = record {
    size = st.size;
    linked = λ q h.
        let (first, at_q, chain) = st.linked q h in
        (first, at_q, rw (children_below-none (parent_of spans) k q alone) chain);
    fresh = λ j above h. st.fresh j (omega arith) h;
    parents = λ j h. st.parents j h ∙ parents_up (parent_of spans) k j alone;
    owners = st.owners;
    same = st.same;
    root = r;
    all = a ∙ st.all;
  }

  set_parent : ℕ → Span → Span
  set_parent p s = record s { parent = some p }

  -- A round that finds a parent.
  pub Stage-some :
      (trace' : Trace) (p : ℕ)
      → parent_of spans k ≡ some p
      → p < length heap
      → trace'.root_span ≡ first_root spans (suc k)
      → trace'.all_spans ≡ trace.all_spans
      → (heap' : Heap) × (attach heap k (some p) ≡ ok heap') × Stage spans heap' trace' (suc k)
  unfolding attach set_parent
  Stage-some trace' p found p_in r a =
      let par = parent_of spans in
      let heap1 = modify heap k (set_parent p) in
      let len = length-modify heap k (set_parent p) in
      let next_same = field-modify (λ s. s.next_sibling) (set_parent p) (λ s. refl) heap k in
      let first_same = field-modify (λ s. s.first_child) (set_parent p) (λ s. refl) heap k in
      let owner_same = field-modify (λ s. s.owner_next) (set_parent p) (λ s. refl) heap k in
      let before : (q : ℕ) → q < length heap1 → Linked heap1 par k q = λ q h.
        let (first, at_q, chain) = st.linked q (omega (arith, h, len)) in
        (
          first,
          first_same q ∙ at_q,
          Chain-frame (λ s. s.next_sibling) heap heap1 first (children_below par k q)
              (All-map (children_below par k q) (λ x b. next_same x) (children_below-All par q k))
              chain,
        ) in
      let (heap2, run, links) =
        link_child-Links heap1 par k p found (omega (arith, k_in, len)) (omega (arith, p_in, len))
          (next_same k ∙ st.fresh k (omega arith) k_in) before in
      let size2 : length heap2 ≡ length heap = omega (arith, links.size, len) in
      (
        heap2,
        rw (update_lem heap k (set_parent p) k_in) run,
        record {
          size = size2 ∙ st.size;
          linked = λ q h. links.linked q (omega (arith, h, size2, len));
          fresh = λ j above h.
              links.later j (omega (arith, above))
              ∙ next_same j
              ∙ st.fresh j (omega (arith, above)) (omega (arith, h, size2));
          parents = λ j h.
              field-strip (λ s. s.parent) (λ s. refl) heap1 heap2 j links.kept
              ∙ set_at j p (omega (arith, h, size2)) found;
          owners = λ j h.
              field-strip (λ s. s.owner_next) (λ s. refl) heap1 heap2 j links.kept
              ∙ owner_same j
              ∙ st.owners j (omega (arith, h, size2));
          same =
              map-strip core (λ s. refl) heap1 heap2 links.kept
              ∙ core-modify (set_parent p) (λ s. refl) heap k
              ∙ st.same;
          root = r;
          all = a ∙ st.all;
        },
      )
    where
      set_at :
          (j p : ℕ)
          → j < length heap
          → parent_of spans k ≡ some p
          → field (λ s. s.parent) (modify heap k (set_parent p)) j
            ≡ some (if ltb j (suc k) then parent_of spans j else none)
      set_at j p h found = elim (Bool-cases (k == j)) [
        | inl e ↦
            let eq : k ≡ j = ==→eq k j e in
            let up : ltb k (suc k) ≡ true = ground arith in
            rw (← eq, up, found)
              (field-modify_self (λ s. s.parent) (set_parent p) (some p) (λ s. refl) heap k k_in)
        | inr e ↦
            let apart : k ≢ j = λ s. absurd (ground (arith, e, s)) in
            let same : ltb j k ≡ ltb j (suc k) = ground (arith, e) in
            field-modify_ne (λ s. s.parent) (set_parent p) heap k j apart
            ∙ st.parents j h
            ∙ ap (λ b. some (if b then parent_of spans j else none)) same
      ]
