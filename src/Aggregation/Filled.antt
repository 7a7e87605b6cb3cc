-- ===== src/Aggregation/Filled.antt =====
-- No group of src/analysis/aggregation.c is empty.
use dapper_lite.Prelude.{
  ℕ, zero, suc, ◌<◌, ◌≡◌, refl, ap, Bool-cases, Option-cases, inl, inr, List, [], ◌∷◌, ◌++◌, leb,
  arith, length, length-append, All, All-append,
}
use dapper_lite.Core.{Span}
use dapper_lite.CriticalPath.{SpanTree, span_duration_us, span_tree_walk_preorder}
use dapper_lite.Aggregation.{
  Group, find_group, new_group, create_group, find_or_create_group, add_sample, with_sample, alter,
  add_to, collect_span_visit, collect_spans, collect_traces, max_groups,
}

module _ {D : Type 0} where
  abbrev pub IsFilled : Group D → Type 0
  IsFilled g = 0 < length g.latencies

  with_sample-IsFilled : (v : D) (g : Group D) → IsFilled g → IsFilled (with_sample v g)
  unfolding with_sample add_sample
  with_sample-IsFilled v g h =
      let len = length-append {A = D} g.latencies (v ∷ []) in
      elim (Bool-cases (leb g.capacity (length g.latencies))) [
        | inl full ↦ elim (Bool-cases (leb 65536 g.capacity)) [
          | inl cap ↦ rw (full, cap, with_sample) h
          | inr free ↦ rw (full, free, with_sample) (omega (arith, len))
        ]
        | inr room ↦ rw (room, with_sample) (omega (arith, len))
      ]

  with_sample-new_group : (v : D) (name : List ℕ) → IsFilled (with_sample v (new_group name))
  unfolding with_sample add_sample
  with_sample-new_group v name = omega arith

  alter-All :
      (f : Group D → Group D) (groups : List (Group D)) (i : ℕ)
      → ((g : Group D) → IsFilled g → IsFilled (f g))
      → All IsFilled groups
      → All IsFilled (alter groups i f)
  alter-All f [] i k h = tt
  alter-All f (g ∷ groups) zero k h = (k g h.0, h.1)
  alter-All f (g ∷ groups) (suc i) k h = (h.0, alter-All f groups i k h.1)

  alter-last :
      (f : Group D → Group D) (groups : List (Group D)) (g : Group D)
      → alter (groups ++ (g ∷ [])) (length groups) f ≡ groups ++ (f g ∷ [])
  alter-last f [] g = refl
  alter-last f (x ∷ groups) g = ap (λ gs. x ∷ gs) (alter-last f groups g)

  module _ (to_double : ℕ → D) where
    visit-IsFilled :
        (groups : List (Group D)) (span : Span)
        → All IsFilled groups
        → All IsFilled (collect_span_visit to_double groups span)
    unfolding collect_span_visit find_or_create_group create_group add_to
    visit-IsFilled groups span h =
        let v = to_double (span_duration_us span) in
        elim (Option-cases (find_group groups span.name)) [
          | inl e ↦ elim (Bool-cases (leb max_groups (length groups))) [
            | inl full ↦ rw (e, full) h
            | inr room ↦
                rw (e, room, alter-last (with_sample v) groups (new_group span.name))
                  (All-append IsFilled groups (with_sample v (new_group span.name) ∷ []) h
                    (with_sample-new_group v span.name, tt))
          ]
          | inr (i, e) ↦ rw e (alter-All (with_sample v) groups i (with_sample-IsFilled v) h)
        ]

    collect_spans-IsFilled :
        (groups : List (Group D)) (spans : List Span)
        → All IsFilled groups
        → All IsFilled (collect_spans to_double groups spans)
    unfolding collect_spans
    collect_spans-IsFilled groups [] h = h
    collect_spans-IsFilled groups (span ∷ spans) h =
        collect_spans-IsFilled (collect_span_visit to_double groups span) spans
          (visit-IsFilled groups span h)

    pub collect_traces-IsFilled :
        (groups : List (Group D)) (traces : List SpanTree)
        → All IsFilled groups
        → All IsFilled (collect_traces to_double groups traces)
    unfolding collect_traces
    collect_traces-IsFilled groups [] h = h
    collect_traces-IsFilled groups (root ∷ traces) h =
        collect_traces-IsFilled (collect_spans to_double groups (span_tree_walk_preorder root))
          traces (collect_spans-IsFilled groups (span_tree_walk_preorder root) h)
