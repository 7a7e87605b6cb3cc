-- ===== src/Aggregation/Reference.antt =====
-- The groups against a reference that looks at one name at a time.
use dapper_lite.Prelude.{
  ℕ, zero, suc, ◌≤◌, ◌≡◌, refl, ap, sym, ◌∙◌, ◌⊎◌, inl, inr, true, false, Bool-cases, List, [], ◌∷◌,
  ◌++◌, if◌then◌else◌, length, take, All, arith, append_assoc, append-nil,
}
use dapper_lite.Core.{Span}
use dapper_lite.Core.Strings.{c_str, IsString}
use dapper_lite.CriticalPath.{SpanTree, span_duration_us, span_tree_walk_preorder}
use dapper_lite.Sampler.{same_string}
use dapper_lite.Aggregation.{
  Group, collect_span_visit, collect_spans, collect_traces, max_samples, max_groups,
}
use dapper_lite.Aggregation.Groups.{same_string→eq, IsGroup}
use dapper_lite.Aggregation.Visit.{samples, has_group}
use dapper_lite.Aggregation.Collect.{Kept, visit, present-known}

take_all : {D : Type 0} (n : ℕ) (xs : List D) → length xs ≤ n → take n xs ≡ xs
take_all zero [] h = refl
take_all zero (x ∷ xs) h = absurd (omega (arith, h))
take_all (suc n) [] h = refl
take_all (suc n) (x ∷ xs) h = ap (λ t. x ∷ t) (take_all n xs (omega (arith, h)))

take-take : {D : Type 0} (n : ℕ) (xs ys : List D) → take n (take n xs ++ ys) ≡ take n (xs ++ ys)
take-take zero xs ys = refl
take-take (suc n) [] ys = refl
take-take (suc n) (x ∷ xs) ys = ap (λ t. x ∷ t) (take-take n xs ys)

samples-short :
    {D : Type 0} (groups : List (Group D)) (x : List ℕ)
    → All IsGroup groups
    → length (samples groups x) ≤ max_samples
unfolding samples
samples-short [] x a = omega arith
samples-short (g ∷ groups) x a = elim (Bool-cases (same_string (c_str g.name) x)) [
  | inl e ↦ rw e (ground (arith, a.0))
  | inr e ↦ rw e (samples-short groups x a.1)
]

module _ {D : Type 0} (to_double : ℕ → D) where
  -- The durations of the spans with one name, in the order of the spans.
  unfoldable pub durations_of : List Span → List ℕ → List D
  durations_of [] x = []
  durations_of (span ∷ spans) x =
      let rest = durations_of spans x in
      if same_string (c_str span.name) x then to_double (span_duration_us span) ∷ rest else rest

  abbrev pub Named : Span → Type 0
  Named span = IsString 128 span.name

  full_stays :
      (groups : List (Group D)) (spans : List Span) (x : List ℕ)
      → All Named spans
      → All IsGroup groups
      → max_groups ≤ length groups
      → (has_group (collect_spans to_double groups spans) x ≡ has_group groups x)
        × (length (collect_spans to_double groups spans) ≡ length groups)
  unfolding collect_spans
  full_stays groups [] x h a full = (refl, refl)
  full_stays groups (span ∷ spans) x h a full = elim (visit to_double groups span h.0 a) [
    | inl (same, _, _) ↦ rw same (full_stays groups spans x h.1 a full)
    | inr (valid, _, still, kept) ↦
        let (present, size) = still full in
        let ih =
          full_stays (collect_span_visit to_double groups span) spans x h.1 valid
            (omega (arith, size, full)) in
        let old = (kept x).known ∙ sym (present-known groups (c_str span.name) x present) in
        (ih.0 ∙ old, ih.1 ∙ size)
  ]

  -- What the groups hold for a name after a walk: the first 65536 durations, or no group, either
  -- because 256 others are in use or because there is no span of the name.
  abbrev pub Grouped : List (Group D) → List Span → List ℕ → List (Group D) → Type 0
  Grouped groups spans x groups' =
      (has_group groups' x ≡ true)
        × (samples groups' x ≡ take max_samples (samples groups x ++ durations_of spans x))
      ⊎ (has_group groups' x ≡ false)
        × (has_group groups x ≡ false)
        × ((max_groups ≤ length groups') ⊎ (durations_of spans x ≡ []))

  -- The span is stored.
  step :
      (groups groups1 : List (Group D)) (span : Span) (spans : List Span) (x : List ℕ)
      → Kept groups groups1 (c_str span.name) x (to_double (span_duration_us span))
      → Grouped groups1 spans x (collect_spans to_double groups1 spans)
      → Grouped groups (span ∷ spans) x (collect_spans to_double groups1 spans)
  unfolding durations_of
  step groups groups1 span spans x k ih =
      let v = to_double (span_duration_us span) in
      let rest = durations_of spans x in
      let r = collect_spans to_double groups1 spans in
      elim (Bool-cases (same_string (c_str span.name) x)) [
        | inl e ↦
            let more : samples groups1 x ≡ take 65536 (samples groups x ++ (v ∷ [])) =
              k.kept
              ∙ ap (λ b. if b then take 65536 (samples groups x ++ (v ∷ [])) else samples groups x)
                  e in
            elim ih [
              | inl (has, all) ↦ rw e (
                  inl (
                    has,
                    all
                        ∙ ap (λ l. take 65536 (l ++ rest)) more
                        ∙ take-take 65536 (samples groups x ++ (v ∷ [])) rest
                        ∙ ap (take 65536) (append_assoc (samples groups x) (v ∷ []) rest),
                  ))
              | inr (_, absent, _) ↦ absurd (ground (arith, absent, k.known, e))
            ]
        | inr e ↦
            let same : samples groups1 x ≡ samples groups x =
              k.kept
              ∙ ap (λ b. if b then take 65536 (samples groups x ++ (v ∷ [])) else samples groups x)
                  e in
            let known : has_group groups1 x ≡ has_group groups x = ground (arith, k.known, e) in
            elim ih [
              | inl (has, all) ↦ rw e (inl (has, all ∙ ap (λ l. take 65536 (l ++ rest)) same))
              | inr (absent', absent, why) ↦ rw e (inr (absent', sym known ∙ absent, why))
            ]
      ]

  -- 256 other groups are in use.
  refused :
      (groups : List (Group D)) (span : Span) (spans : List Span) (x : List ℕ)
      → All Named (span ∷ spans)
      → All IsGroup groups
      → has_group groups (c_str span.name) ≡ false
      → max_groups ≤ length groups
      → Grouped groups spans x (collect_spans to_double groups spans)
      → Grouped groups (span ∷ spans) x (collect_spans to_double groups spans)
  unfolding durations_of
  refused groups span spans x h a absent full ih =
      elim (Bool-cases (same_string (c_str span.name) x)) [
        | inl e ↦
            let same = same_string→eq (c_str span.name) x e in
            let none_of : has_group groups x ≡ false = ap (has_group groups) (sym same) ∙ absent in
            let (stays, size) = full_stays groups spans x h.1 a full in
            inr (stays ∙ none_of, none_of, inl (omega (arith, size, full)))
        | inr e ↦ rw e ih
      ]

  collect_spans-Grouped :
      (groups : List (Group D)) (spans : List Span) (x : List ℕ)
      → All Named spans
      → All IsGroup groups
      → Grouped groups spans x (collect_spans to_double groups spans)
  unfolding collect_spans durations_of
  collect_spans-Grouped groups [] x h a = elim (Bool-cases (has_group groups x)) [
    | inl e ↦ inl (
      e,
      sym (take_all 65536 (samples groups x) (samples-short groups x a))
          ∙ ap (take 65536) (sym (append-nil (samples groups x))),
    )
    | inr e ↦ inr (e, e, inr refl)
  ]
  collect_spans-Grouped groups (span ∷ spans) x h a = elim (visit to_double groups span h.0 a) [
    | inl (same, absent, full) ↦
        rw same
          (refused groups span spans x h a absent full (collect_spans-Grouped groups spans x h.1 a))
    | inr (valid, _, _, kept) ↦
        step groups (collect_span_visit to_double groups span) span spans x (kept x)
          (collect_spans-Grouped (collect_span_visit to_double groups span) spans x h.1 valid)
  ]

  collect_spans-append :
      (groups : List (Group D)) (spans more : List Span)
      → collect_spans to_double groups (spans ++ more)
        ≡ collect_spans to_double (collect_spans to_double groups spans) more
  unfolding collect_spans
  collect_spans-append groups [] more = refl
  collect_spans-append groups (span ∷ spans) more =
      collect_spans-append (collect_span_visit to_double groups span) spans more

  -- The spans of all traces, in the order of the walk.
  unfoldable pub all_visits : List SpanTree → List Span
  all_visits [] = []
  all_visits (root ∷ traces) = span_tree_walk_preorder root ++ all_visits traces

  collect_traces-spans :
      (groups : List (Group D)) (traces : List SpanTree)
      → collect_traces to_double groups traces ≡ collect_spans to_double groups (all_visits traces)
  unfolding collect_traces all_visits collect_spans
  collect_traces-spans groups [] = refl
  collect_traces-spans groups (root ∷ traces) =
      collect_traces-spans (collect_spans to_double groups (span_tree_walk_preorder root)) traces
      ∙ sym (collect_spans-append groups (span_tree_walk_preorder root) (all_visits traces))

  collect_spans-bounded :
      (groups : List (Group D)) (spans : List Span)
      → All Named spans
      → All IsGroup groups
      → length groups ≤ max_groups
      → length (collect_spans to_double groups spans) ≤ max_groups
  unfolding collect_spans
  collect_spans-bounded groups [] h a b = b
  collect_spans-bounded groups (span ∷ spans) h a b = elim (visit to_double groups span h.0 a) [
    | inl (same, _, _) ↦ rw same (collect_spans-bounded groups spans h.1 a b)
    | inr (valid, bounded, _, _) ↦
        collect_spans-bounded (collect_span_visit to_double groups span) spans h.1 valid (bounded b)
  ]

  -- The walk over the spans of all traces uses at most the 256 groups of the array and agrees with
  -- looking at one name at a time: the group of a name holds the first 65536 durations of the
  -- spans with that name, in the order of the walk. A name has no group only if no span has it or
  -- all 256 groups are in use.
  pub collect_traces-durations_of :
      (traces : List SpanTree) (x : List ℕ)
      → All Named (all_visits traces)
      → let groups = collect_traces to_double [] traces in
        (length groups ≤ max_groups)
        × ((has_group groups x ≡ true)
              × (samples groups x ≡ take max_samples (durations_of (all_visits traces) x))
            ⊎ (has_group groups x ≡ false)
              × ((length groups ≡ max_groups) ⊎ (durations_of (all_visits traces) x ≡ [])))
  unfolding samples
  collect_traces-durations_of traces x h =
      let bounded = collect_spans-bounded [] (all_visits traces) h tt (omega arith) in
      rw (collect_traces-spans [] traces) (
        bounded,
        elim (collect_spans-Grouped [] (all_visits traces) x h tt) [
          | inl (has, all) ↦ inl (has, all)
          | inr (absent, _, inl full) ↦ inr (absent, inl (omega (arith, bounded, full)))
          | inr (absent, _, inr nothing) ↦ inr (absent, inr nothing)
        ],
      )
