-- ===== src/Hierarchy/Rounds.antt =====
-- A round of the second loop of `rebuild_hierarchy`.
use mathlib.Core.Option
use dapper_lite.Prelude.{
  ℕ, suc, ◌<◌, ◌≡◌, refl, ap, sym, ◌∙◌, true, false, Bool-cases, inl, inr, Option-cases, none, some,
  ◌==◌, length, get_elem?,
}
use dapper_lite.Prelude.Outcome.{Outcome, ok, ◌>>=◌}
use dapper_lite.Core.{Span, SpanPtr}
use dapper_lite.Hierarchy.{Heap, Trace, if_null, find_span_by_id, attach, link_span}
use dapper_lite.Hierarchy.Chains.{field}
use dapper_lite.Hierarchy.Siblings.{field→get}
use dapper_lite.Hierarchy.Ownership.{core}
use dapper_lite.Hierarchy.Numbers.{
  parent_of, first_root, field-map, find_span_by_id-core, find_span_by_id-lt,
}
use dapper_lite.Hierarchy.Stages.{Stage, Stage-none, Stage-some}

module _ (spans : Heap) (k : ℕ) {s : Span} (at_k : get_elem? spans k ≡ some s) where
  parent_of-root : (s.parent_span_id == 0) ≡ true → parent_of spans k ≡ none
  unfolding parent_of
  parent_of-root e = rw (at_k, e, parent_of)

  parent_of-child :
      (s.parent_span_id == 0) ≡ false → parent_of spans k ≡ find_span_by_id spans s.parent_span_id
  unfolding parent_of
  parent_of-child e = rw (at_k, e, parent_of)

  first_root-root :
      (s.parent_span_id == 0) ≡ true
      → first_root spans (suc k) ≡ if_null (first_root spans k) (some k) (λ r. some r)
  unfolding first_root
  first_root-root e = rw (at_k, e, first_root)

  first_root-child : (s.parent_span_id == 0) ≡ false → first_root spans (suc k) ≡ first_root spans k
  unfolding first_root
  first_root-child e = rw (at_k, e, first_root) (kept (first_root spans k))
    where
      kept : (o : SpanPtr) → if_null o none (λ r. some r) ≡ o
      kept none = refl
      kept (some r) = refl

-- One round of the second loop.
abbrev Round : Heap → ℕ → Outcome (Heap × Trace) → Type 0
Round spans k r =
    (heap' : Heap) × (trace' : Trace) × (r ≡ ok (heap', trace')) × Stage spans heap' trace' (suc k)

module _ (spans heap : Heap) (trace : Trace) (k : ℕ) (st : Stage spans heap trace k)
    (k_in : k < length heap) where
  pub round : (s : Span) → get_elem? heap k ≡ some s → Round spans k (link_span heap trace k s)
  unfolding link_span
  round s at_heap =
      let cores : field core spans k ≡ some (core s) =
        field-map core spans k
        ∙ ap (λ m. get_elem? m k) (sym st.same)
        ∙ sym (field-map core heap k)
        ∙ ap (Option.map core) at_heap in
      let (s0, at_spans, same) = field→get core spans k cores in
      let ids : s0.parent_span_id ≡ s.parent_span_id = ap (λ t. t.parent_span_id) same in
      elim (Bool-cases (s.parent_span_id == 0)) [
        | inl e ↦
            let e0 : (s0.parent_span_id == 0) ≡ true = rw ids e in
            rw e
              (new_root (parent_of-root spans k at_spans e0) (first_root-root spans k at_spans e0))
        | inr e ↦
            let e0 : (s0.parent_span_id == 0) ≡ false = rw ids e in
            rw e (
              child s.parent_span_id (first_root-child spans k at_spans e0) (
                parent_of-child spans k at_spans e0
                ∙ ap (find_span_by_id spans) ids
                ∙ sym (find_span_by_id-core heap spans s.parent_span_id st.same)))
      ]
    where
      split :
          parent_of spans k ≡ none
          → first_root spans (suc k) ≡ if_null (first_root spans k) (some k) (λ r. some r)
          → (o : SpanPtr) → trace.root_span ≡ o
          → Round spans k
              (if_null o (ok (heap, record trace { root_span = some k })) (λ r. ok (heap, trace)))
      split alone roots none e =
          let now = roots ∙ ap (λ q. if_null q (some k) (λ r. some r)) (sym st.root ∙ e) in
          (
            heap,
            record trace { root_span = some k },
            refl,
            Stage-none spans heap trace k st k_in (record trace { root_span = some k }) alone
                (sym now) refl,
          )
      split alone roots (some r) e =
          let now = roots ∙ ap (λ q. if_null q (some k) (λ r. some r)) (sym st.root ∙ e) in
          (heap, trace, refl, Stage-none spans heap trace k st k_in trace alone (e ∙ sym now) refl)

      new_root :
          parent_of spans k ≡ none
          → first_root spans (suc k) ≡ if_null (first_root spans k) (some k) (λ r. some r)
          → Round spans k (
              if_null trace.root_span
                (ok (heap, record trace { root_span = some k }))
                (λ r. ok (heap, trace)))
      new_root alone roots = split alone roots trace.root_span refl

      child :
          (pid : ℕ)
          → first_root spans (suc k) ≡ first_root spans k
          → parent_of spans k ≡ find_span_by_id heap pid
          → Round spans k (attach heap k (find_span_by_id heap pid) >>= λ heap'. ok (heap', trace))
      child pid roots found = elim (Option-cases (find_span_by_id heap pid)) [
        | inl e ↦
            rw (e, attach)
              (
                heap,
                trace,
                refl,
                Stage-none spans heap trace k st k_in trace (found ∙ e) (st.root ∙ sym roots) refl,
              )
        | inr (p, e) ↦
            let (heap', run, st') =
              Stage-some spans heap trace k st k_in trace p (found ∙ e)
                (find_span_by_id-lt heap pid e) (st.root ∙ sym roots) refl in
            rw (e, run) (heap', trace, refl, st')
      ]
