-- ===== src/Hierarchy/Create.antt =====
-- `span_create` keeps the links of all spans in order.
use mathlib.Core.Path.{fun_ext}
use dapper_lite.Prelude.{
  ℕ, suc, ◌+◌, ◌%◌, ◌^◌, ◌<◌, ◌≡◌, refl, ap, ◌∙◌, Bool-cases, inl, inr, none, some, List, [], ◌∷◌,
  ◌++◌, arith, ◌==◌, ==→eq, length,
}
use dapper_lite.Prelude.Outcome.{Outcome, ok}
use dapper_lite.Core.{Span, SpanPtr}
use dapper_lite.Collector.{Time}
use dapper_lite.Hierarchy.{Heap, Trace, World, if_null, link_child, new_span, span_create}
use dapper_lite.Hierarchy.Chains.{field, Chain, at}
use dapper_lite.Hierarchy.Siblings.{load_lem}
use dapper_lite.Hierarchy.Children.{children_below-none}
use dapper_lite.Hierarchy.Linking.{link_child-Links}
use dapper_lite.Hierarchy.Numbers.{field-strip}
use dapper_lite.Hierarchy.Forest.{
  parent_in, IsBelow, IsForest, below, Chain-grow, forest, IsBelow-suc, parent_in-strip,
  Chain-strip, grown, length-grown, field-grown, field-new, parent_in-grown, parent_in-new,
  Linked-grown,
}

-- What `span_create` leaves: one more span with its parent, in a heap whose lists of children are
-- in order, at the head of the spans that the trace owns.
pub record Created (heap heap' : Heap) (parent : SpanPtr) (trace' : Trace) (owned : List ℕ)
    : Type 0 where
  pub size : length heap' ≡ suc (length heap)
  pub forest : IsForest heap'
  pub parent_set : field (λ s. s.parent) heap' (length heap) ≡ some parent
  pub owned_by : Chain (λ s. s.owner_next) heap' trace'.all_spans (length heap ∷ owned)

module _ (heap : Heap) (new : Span) (f : IsForest heap) (next_null : new.next_sibling ≡ none)
    (first_null : new.first_child ≡ none) (owned : List ℕ)
    (chain : Chain (λ s. s.owner_next) heap new.owner_next owned) where
  owned-grown :
      Chain
        (λ s. s.owner_next)
        (grown heap new f next_null first_null)
        (some (length heap))
        (length heap ∷ owned)
  owned-grown = (
    refl,
    new.owner_next,
    field-new heap new f next_null first_null (λ s. s.owner_next),
    Chain-grow (λ s. s.owner_next) heap (heap ++ (new ∷ [])) new.owner_next owned
        (field-grown heap new f next_null first_null (λ s. s.owner_next)) chain,
  )

  grown-bound :
      IsBelow (length heap) new.parent
      → (j : ℕ) → j < suc (length heap)
      → IsBelow (suc (length heap)) (parent_in (grown heap new f next_null first_null) j)
  grown-bound b j h = elim (Bool-cases (j == length heap)) [
    | inl e ↦
        let same : j ≡ length heap = ==→eq j (length heap) e in
        rw (same, parent_in-new heap new f next_null first_null)
          (IsBelow-suc (length heap) new.parent b)
    | inr e ↦
        let old : j < length heap = ground (arith, e) in
        rw (parent_in-grown heap new f next_null first_null j old) (
          IsBelow-suc (length heap) (parent_in heap j)
            (below (λ i. IsBelow (length heap) (parent_in heap i)) (length heap) j f.parents old))
  ]

  -- A span without a parent.
  Created-root :
      (trace' : Trace)
      → new.parent ≡ none
      → trace'.all_spans ≡ some (length heap)
      → Created heap (grown heap new f next_null first_null) none trace' owned
  Created-root trace' alone all =
      let g = heap ++ (new ∷ []) in
      let len = length-grown heap new f next_null first_null in
      let last = parent_in-new heap new f next_null first_null ∙ alone in
      record {
        size = len;
        forest =
            forest g (suc (length heap)) (parent_in g) len refl
              (λ q h.
                let (first, at_q, c) =
                  Linked-grown heap new f next_null first_null q (omega (arith, h, len)) in
                (first, at_q, rw (children_below-none (parent_in g) (length heap) q last) c))
              (grown-bound (rw alone tt));
        parent_set = field-new heap new f next_null first_null (λ s. s.parent) ∙ ap some alone;
        owned_by = rw all owned-grown;
      }

  -- A span with a parent, behind `link_child`.
  Created-child :
      (p : ℕ) (trace' : Trace)
      → new.parent ≡ some p
      → p < length heap
      → trace'.all_spans ≡ some (length heap)
      → (heap' : Heap) × (link_child (grown heap new f next_null first_null) p (length heap)
          ≡ ok heap')
        × Created heap heap' (some p) trace' owned
  Created-child p trace' e p_in all =
      let g = heap ++ (new ∷ []) in
      let n = length heap in
      let len = length-grown heap new f next_null first_null in
      let last = parent_in-new heap new f next_null first_null ∙ e in
      let (heap', run, links) =
        link_child-Links g (parent_in g) n p last (omega (arith, len)) (omega (arith, len, p_in))
          (field-new heap new f next_null first_null (λ s. s.next_sibling) ∙ ap some next_null)
          (Linked-grown heap new f next_null first_null) in
      let size : length heap' ≡ suc n = links.size ∙ len in
      let same_parent : parent_in heap' ≡ parent_in g =
        fun_ext (λ j. parent_in-strip g heap' j links.kept) in
      (
        heap',
        run,
        record {
          size = size;
          forest =
              forest heap' (suc n) (parent_in g) size same_parent
                (λ q h. links.linked q (omega (arith, h, len))) (grown-bound (rw e p_in));
          parent_set =
              field-strip (λ s. s.parent) (λ s. refl) g heap' n links.kept
              ∙ field-new heap new f next_null first_null (λ s. s.parent)
              ∙ ap some e;
          owned_by = rw all (Chain-strip g heap' (some n) (n ∷ owned) links.kept owned-grown);
        },
      )

abbrev left : World → Heap → World
left w heap = record { heap = heap; next_span_id = (w.next_span_id + 1) % 2 ^ 64 }

module _ (w : World) (trace : Trace) (new : Span) (owned : List ℕ) (f : IsForest w.heap)
    (next_null : new.next_sibling ≡ none) (first_null : new.first_child ≡ none)
    (alone : new.parent ≡ none) (c : Chain (λ s. s.owner_next) w.heap new.owner_next owned) where
  -- The root of the trace is only set if there is none.
  place-root :
      (o : SpanPtr)
      → (trace' : Trace) × (if_null {A = Outcome (Heap × Trace)} o
            (ok (
              w.heap ++ (new ∷ []),
              record trace { root_span = some (length w.heap); all_spans = some (length w.heap) },
            ))
            (λ r. ok (w.heap ++ (new ∷ []), record trace { all_spans = some (length w.heap) }))
          ≡ ok (w.heap ++ (new ∷ []), trace'))
        × Created w.heap (w.heap ++ (new ∷ [])) none trace' owned
  place-root none = (
    record trace { root_span = some (length w.heap); all_spans = some (length w.heap) },
    refl,
    Created-root w.heap new f next_null first_null owned c _ alone refl,
  )
  place-root (some r) = (
    record trace { all_spans = some (length w.heap) },
    refl,
    Created-root w.heap new f next_null first_null owned c _ alone refl,
  )

-- On a heap in which every list of children is in order, `span_create` with an earlier span of it
-- or NULL for the parent ends without a fault. It adds one span, with that parent, at the head of
-- the spans that the trace owns, and every list of children is in order again.
pub span_create-Created :
    (w : World) (trace : Trace) (parent : SpanPtr) (name : List ℕ) (start : ℕ) (wall : Time)
    (owned : List ℕ)
    → IsForest w.heap
    → IsBelow (length w.heap) parent
    → Chain (λ s. s.owner_next) w.heap trace.all_spans owned
    → (w' : World) × (trace' : Trace) × (span_create w trace parent name start wall
        ≡ ok (length w.heap, w', trace'))
      × Created w.heap w'.heap parent trace' owned
unfolding span_create
span_create-Created w trace none name start wall owned f b c =
    let new = new_span w trace none 0 name start wall in
    let (trace', run, created) = place-root w trace new owned f refl refl refl c trace.root_span in
    rw run (left w (w.heap ++ (new ∷ [])), trace', refl, created)
span_create-Created w trace (some p) name start wall owned f b c =
    let (s, at_p) = at w.heap p b in
    let new = new_span w trace (some p) s.span_id name start wall in
    let trace' = record trace { all_spans = some (length w.heap) } in
    let (heap', run, created) = Created-child w.heap new f refl refl owned c p trace' refl b refl in
    rw (load_lem w.heap p at_p, run) (left w heap', trace', refl, created)
