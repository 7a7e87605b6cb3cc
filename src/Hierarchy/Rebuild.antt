-- ===== src/Hierarchy/Rebuild.antt =====
-- `rebuild_hierarchy` gives the tree that the parent numbers describe.
use dapper_lite.Prelude.{
  ℕ, zero, suc, ◌+◌, ◌<◌, ◌≤◌, ◌≡◌, refl, ap, ◌∙◌, true, false, none, some, [], map, arith, ltb,
  if◌then◌else◌, length, All,
}
use dapper_lite.Prelude.Outcome.{ok}
use dapper_lite.Hierarchy.{Heap, Trace, link_spans, rebuild_hierarchy}
use dapper_lite.Hierarchy.Chains.{field, Chain, at}
use dapper_lite.Hierarchy.Siblings.{load_lem}
use dapper_lite.Hierarchy.Children.{children_below, Linked}
use dapper_lite.Hierarchy.Ownership.{
  last_below, down_from, All-down_from, core, clear_all, length-clear_all, core-clear_all,
  field-clear_all, take_ownership_lem,
}
use dapper_lite.Hierarchy.Numbers.{parent_of, first_root}
use dapper_lite.Hierarchy.Stages.{Stage}
use dapper_lite.Hierarchy.Rounds.{round}

link_spans-Stage :
    (spans : Heap) (rounds k : ℕ) (heap : Heap) (trace : Trace)
    → k + rounds ≡ length spans
    → Stage spans heap trace k
    → (heap' : Heap) × (trace' : Trace) × (link_spans rounds k heap trace ≡ ok (heap', trace'))
      × Stage spans heap' trace' (length spans)
unfolding link_spans
link_spans-Stage spans zero k heap trace n st =
    let e : k ≡ length spans = omega (arith, n) in (heap, trace, refl, rw e at st)
link_spans-Stage spans (suc rounds) k heap trace n st =
    let k_in : k < length heap = omega (arith, n, st.size) in
    let (s, at_k) = at heap k k_in in
    let (heap1, trace1, run, st1) = round spans heap trace k st k_in s at_k in
    let (heap2, trace2, runs, st2) =
      link_spans-Stage spans rounds (suc k) heap1 trace1 (omega (arith, n)) st1 in
    (heap2, trace2, rw (load_lem heap k at_k, run) runs, st2)

cleared-Stage :
    (spans : Heap) (trace : Trace)
    → trace.root_span ≡ none
    → trace.all_spans ≡ last_below (length spans)
    → Stage spans (clear_all 0 spans) trace 0
unfolding first_root
cleared-Stage spans trace r a =
    let len = length-clear_all 0 spans in
    let from : (j : ℕ) → 0 + j ≡ j = λ j. omega arith in
    record {
      size = len;
      linked = λ q h. (
        none,
        field-clear_all (λ s. s.first_child) (λ j. none) (λ j s. refl) 0 spans q
            (omega (arith, h, len)),
        unfold children_below in refl,
      );
      fresh = λ j _ h.
          field-clear_all (λ s. s.next_sibling) (λ j. none) (λ j s. refl) 0 spans j
            (omega (arith, h, len));
      parents = λ j h.
          let before : ltb j 0 ≡ false = ground arith in
          rw before (
            field-clear_all (λ s. s.parent) (λ j. none) (λ j s. refl) 0 spans j
              (omega (arith, h, len)));
      owners = λ j h.
          field-clear_all (λ s. s.owner_next) last_below (λ j s. refl) 0 spans j
            (omega (arith, h, len))
          ∙ ap (λ n. some (last_below n)) (from j);
      same = core-clear_all 0 spans;
      root = r;
      all = a;
    }

-- The tree that the parent numbers of `spans` describe: each span has the parent that
-- `find_span_by_id` gives for its number, and for its children the list of all spans with that
-- parent, in the order of the array; the root is the first span without a parent number; the owned
-- spans are all of them, each once; and nothing but pointers has changed.
pub record Rebuilt (spans heap : Heap) (trace : Trace) : Type 0 where
  pub size : length heap ≡ length spans
  pub children : All (Linked heap (parent_of spans) (length spans)) (down_from (length spans))
  pub parents :
      All (λ j. field (λ s. s.parent) heap j ≡ some (parent_of spans j)) (down_from (length spans))
  pub owned : Chain (λ s. s.owner_next) heap trace.all_spans (down_from (length spans))
  pub root : trace.root_span ≡ first_root spans (length spans)
  pub same : map core heap ≡ map core spans

owners-Chain :
    (heap : Heap) (n : ℕ)
    → n ≤ length heap
    → ((j : ℕ) → j < length heap → field (λ s. s.owner_next) heap j ≡ some (last_below j))
    → Chain (λ s. s.owner_next) heap (last_below n) (down_from n)
owners-Chain heap zero h o = refl
owners-Chain heap (suc n) h o =
    (refl, last_below n, o n (omega arith), owners-Chain heap n (omega arith) o)

pub rebuild_hierarchy-Rebuilt :
    (spans : Heap) (trace : Trace)
    → trace.all_spans ≡ none
    → (heap : Heap) × (trace' : Trace) × (rebuild_hierarchy spans trace ≡ ok (heap, trace'))
      × Rebuilt spans heap trace'
unfolding rebuild_hierarchy
rebuild_hierarchy-Rebuilt spans trace none_owned =
    let n = length spans in
    let start = record trace { root_span = none } in
    let zero_n : 0 + n ≡ n = omega arith in
    let taken = take_ownership_lem [] spans start none_owned in
    let trace1 = record start { all_spans = last_below n } in
    let (heap, trace2, run, st) =
      link_spans-Stage spans n 0 (clear_all 0 spans) trace1 zero_n
        (cleared-Stage spans trace1 refl refl) in
    (
      heap,
      trace2,
      rw (taken, zero_n) run,
      record {
        size = st.size;
        children = All-down_from n (λ q h. st.linked q (omega (arith, h, st.size)));
        parents = All-down_from n (λ j h.
            let below : ltb j n ≡ true = ground arith in
            st.parents j (omega (arith, h, st.size))
            ∙ ap (λ b. some (if b then parent_of spans j else none)) below);
        owned = rw st.all (owners-Chain heap n (omega (arith, st.size)) st.owners);
        root = st.root;
        same = st.same;
      },
    )
