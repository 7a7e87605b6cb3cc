-- ===== src/Hierarchy/Linking.antt =====
-- Linking a span behind the children that its parent has.
use dapper_lite.Prelude.{
  ℕ, suc, ◌<◌, ◌≡◌, ◌≢◌, refl, ap, ◌∙◌, Bool-cases, inl, inr, none, some, List, [], ◌∷◌, ◌++◌, map,
  arith, ◌==◌, ==→eq, length,
}
use dapper_lite.Prelude.Outcome.{ok}
use dapper_lite.Core.{SpanPtr}
use dapper_lite.Hierarchy.{Heap, modify, update, append_sibling, link_child, if_null}
use dapper_lite.Hierarchy.Chains.{
  field, next_of, Chain, Chain-frame, All-map, field-modify, field-modify_ne, field-modify_self,
  length-modify,
}
use dapper_lite.Hierarchy.Siblings.{
  field→get, load_lem, update_lem, link_next, link_first, append_sibling-Chain,
}
use dapper_lite.Hierarchy.Children.{
  children_below, children_below-All, children_below-Ascends, length-children_below, Linked,
  children_below_self, children_below-other, strip, strip-modify,
}

-- What linking the span `k` to its parent does.
pub record Links (heap heap' : Heap) (par : ℕ → SpanPtr) (k : ℕ) : Type 0 where
  pub size : length heap' ≡ length heap
  pub linked : (q : ℕ) → q < length heap → Linked heap' par (suc k) q
  pub later : (j : ℕ) → k < j → next_of heap' j ≡ next_of heap j
  pub kept : map strip heap' ≡ map strip heap

module _ (heap : Heap) (par : ℕ → SpanPtr) (k p : ℕ) (parent : par k ≡ some p)
    (k_in : k < length heap) (p_in : p < length heap) (fresh : next_of heap k ≡ some none)
    (before : (q : ℕ) → q < length heap → Linked heap par k q) where
  abbrev first_linked : Heap
  first_linked = modify heap p (link_first k)

  -- The parent has no child so far.
  link_first-Links :
      Chain (λ s. s.next_sibling) heap none (children_below par k p) → Links heap first_linked par k
  link_first-Links c = record {
    size = length-modify heap p (link_first k);
    linked = linked;
    later = λ j h. field-modify (λ s. s.next_sibling) (link_first k) (λ s. refl) heap p j;
    kept = strip-modify (link_first k) (λ s. refl) heap p;
  }
    where
      none_yet :
          (xs : List ℕ)
          → Chain (λ s. s.next_sibling) heap none xs
          → Chain (λ s. s.next_sibling) first_linked (some k) (xs ++ (k ∷ []))
      none_yet [] c = (
        refl,
        none,
        field-modify (λ s. s.next_sibling) (link_first k) (λ s. refl) heap p k ∙ fresh,
        refl,
      )
      none_yet (x ∷ xs) c = cc

      linked : (q : ℕ) → q < length heap → Linked first_linked par (suc k) q
      linked q h = elim (Bool-cases (p == q)) [
        | inl e ↦
            let same : p ≡ q = ==→eq p q e in
            rw (← same) (
              some k,
              field-modify_self (λ s. s.first_child) (link_first k) (some k) (λ s. refl) heap p
                  p_in,
              rw (children_below_self par k p parent) (none_yet (children_below par k p) c),
            )
        | inr e ↦
            let (first, at_q, chain) = before q h in
            let apart : p ≢ q = λ s. absurd (ground (arith, e, s)) in
            (
              first,
              field-modify_ne (λ s. s.first_child) (link_first k) heap p q apart ∙ at_q,
              rw (children_below-other par k p q parent e) (
                  Chain-frame (λ s. s.next_sibling) heap first_linked first (children_below par k q)
                    (All-map (children_below par k q)
                      (λ x b.
                        field-modify (λ s. s.next_sibling) (link_first k) (λ s. refl) heap p x)
                      (children_below-All par q k))
                    chain),
            )
      ]

  -- The parent has children.
  append-Links :
      (l : ℕ) (first : SpanPtr)
      → par l ≡ some p
      → l < k
      → field (λ s. s.first_child) heap p ≡ some first
      → Chain
          (λ s. s.next_sibling)
          (modify heap l (link_next k))
          first
          (children_below par k p ++ (k ∷ []))
      → Links heap (modify heap l (link_next k)) par k
  append-Links l first par_l below at_p chain_p = record {
    size = length-modify heap l (link_next k);
    linked = linked;
    later = λ j h.
        field-modify_ne (λ s. s.next_sibling) (link_next k) heap l j
          (λ e. omega (arith, e, h, below));
    kept = strip-modify (link_next k) (λ s. refl) heap l;
  }
    where
      after : Heap
      after = modify heap l (link_next k)

      linked : (q : ℕ) → q < length heap → Linked after par (suc k) q
      linked q h = elim (Bool-cases (p == q)) [
        | inl e ↦
            let same : p ≡ q = ==→eq p q e in
            rw (← same) (
              first,
              field-modify (λ s. s.first_child) (link_next k) (λ s. refl) heap l p ∙ at_p,
              rw (children_below_self par k p parent) chain_p,
            )
        | inr e ↦
            let (first_q, at_q, chain) = before q h in
            let elsewhere : (x : ℕ) → (x < k) × (par x ≡ some q) → l ≢ x =
              λ x b s. absurd (ground (arith, e, par_l, b.1, ap par s)) in
            (
              first_q,
              field-modify (λ s. s.first_child) (link_next k) (λ s. refl) heap l q ∙ at_q,
              rw (children_below-other par k p q parent e) (
                  Chain-frame (λ s. s.next_sibling) heap after first_q (children_below par k q)
                    (All-map (children_below par k q)
                      (λ x b.
                        field-modify_ne (λ s. s.next_sibling) (link_next k) heap l x
                          (elsewhere x b))
                      (children_below-All par q k))
                    chain),
            )
      ]

  -- `link_child` appends the span to its parent's list, and changes no other list.
  pub link_child-Links : (heap' : Heap) × (link_child heap p k ≡ ok heap') × Links heap heap' par k
  unfolding link_child
  link_child-Links =
      let (first, at_p, chain) = before p p_in in
      let (s, get_p, s_first) = field→get (λ s. s.first_child) heap p at_p in
      rw (load_lem heap p get_p)
        (go first at_p s.first_child s_first (children_below par k p) refl chain)
    where
      go :
          (first : SpanPtr)
          → field (λ s. s.first_child) heap p ≡ some first
          → (o : SpanPtr) → o ≡ first
          → (xs : List ℕ) → children_below par k p ≡ xs
          → Chain (λ s. s.next_sibling) heap first xs
          → (heap' : Heap) × (if_null o
                (update heap p (link_first k))
                (λ x. append_sibling (length heap) heap x k)
              ≡ ok heap')
            × Links heap heap' par k
      go first at_p o e [] kids chain =
          let unset : o ≡ none = e ∙ chain in
          rw (unset, update_lem heap p (link_first k) p_in)
            (first_linked, refl, link_first-Links (rw kids refl))
      go first at_p o e (x ∷ xs) kids (e', nxt, at_x, chain) =
          let set_to : o ≡ some x = e ∙ e' in
          let all = rw kids at (children_below-All par p k) in
          let asc = rw kids at (children_below-Ascends par p k) in
          let len = length-children_below par p k in
          let (l, run, par_l, above, below, chain') =
            append_sibling-Chain (λ y. par y ≡ some p) (length heap) heap x xs k nxt at_x chain
              asc.1 (All-map (x ∷ xs) (λ y b. b.1) all) (All-map (x ∷ xs) (λ y b. b.0) all)
              (omega (arith, len, k_in, ap (λ (ys : List ℕ). length ys) kids)) fresh in
          rw (set_to, run)
            (
              modify heap l (link_next k),
              refl,
              append-Links l (some x) par_l below (at_p ∙ ap some e') (rw kids chain'),
            )
