-- ===== src/Hierarchy/Ownership.antt =====
-- The first loop of `rebuild_hierarchy`: the spans cleared and owned.
use dapper_lite.Prelude.{
  ℕ, zero, suc, ◌+◌, ◌<◌, ◌≡◌, refl, ap, ◌∙◌, none, some, List, [], ◌∷◌, ◌++◌, map, arith, length,
  All, length-append, append_assoc,
}
use dapper_lite.Prelude.Outcome.{ok}
use dapper_lite.Core.{Span, SpanPtr}
use dapper_lite.Hierarchy.{Heap, Trace, modify, take_ownership}
use dapper_lite.Hierarchy.Chains.{field}
use dapper_lite.Hierarchy.Siblings.{update_lem}

-- The address below `n` that comes last, and all of them, last one first.
abbrev pub last_below : ℕ → SpanPtr
last_below zero = none
last_below (suc n) = some n

abbrev pub down_from : ℕ → List ℕ
down_from zero = []
down_from (suc n) = n ∷ down_from n

pub All-down_from : {P : ℕ → Type 0} (n : ℕ) → ((j : ℕ) → j < n → P j) → All P (down_from n)
All-down_from zero f = tt
All-down_from (suc n) f = (f n (omega arith), All-down_from n (λ j h. f j (omega arith)))

-- A span without its pointers.
abbrev pub core : Span → Span
core s = record s { parent = none; first_child = none; next_sibling = none; owner_next = none }

abbrev clear : ℕ → Span → Span
clear j s = record s {
  parent = none;
  first_child = none;
  next_sibling = none;
  owner_next = last_below j;
}

pub clear_all : ℕ → Heap → Heap
clear_all i [] = []
clear_all i (s ∷ spans) = clear i s ∷ clear_all (suc i) spans

pub length-clear_all : (i : ℕ) (spans : Heap) → length (clear_all i spans) ≡ length spans
unfolding clear_all
length-clear_all i [] = refl
length-clear_all i (s ∷ spans) = ap suc (length-clear_all (suc i) spans)

pub core-clear_all : (i : ℕ) (spans : Heap) → map core (clear_all i spans) ≡ map core spans
unfolding clear_all
core-clear_all i [] = refl
core-clear_all i (s ∷ spans) = ap (λ t. core s ∷ t) (core-clear_all (suc i) spans)

pub field-clear_all :
    {A : Type 0} (g : Span → A) (v : ℕ → A)
    → ((j : ℕ) (s : Span) → g (clear j s) ≡ v j)
    → (i : ℕ) (spans : Heap) (j : ℕ) → j < length spans
    → field g (clear_all i spans) j ≡ some (v (i + j))
unfolding clear_all
field-clear_all g v same i [] j h = absurd (omega arith)
field-clear_all g v same i (s ∷ spans) zero h =
    let e : i ≡ i + 0 = omega arith in ap some (same i s ∙ ap v e)
field-clear_all g v same i (s ∷ spans) (suc j) h =
    let e : suc i + j ≡ i + suc j = omega arith in
    field-clear_all g v same (suc i) spans j (omega arith) ∙ ap (λ n. some (v n)) e

pub modify-append :
    (done : Heap) (s : Span) (rest : Heap) (f : Span → Span)
    → modify (done ++ (s ∷ rest)) (length done) f ≡ done ++ (f s ∷ rest)
modify-append [] s rest f = refl
modify-append (t ∷ done) s rest f = ap (λ r. t ∷ r) (modify-append done s rest f)

pub take_ownership_lem :
    (done rest : Heap) (trace : Trace)
    → trace.all_spans ≡ last_below (length done)
    → take_ownership (length rest) (length done) (done ++ rest) trace
      ≡ ok (
        done ++ clear_all (length done) rest,
        record trace { all_spans = last_below (length done + length rest) },
      )
unfolding take_ownership clear_all
take_ownership_lem done [] trace e =
    let n : length done + 0 ≡ length done = omega arith in rw (n, ← e) refl
take_ownership_lem done (s ∷ rest) trace e =
    let i = length done in
    let f = λ (t : Span). record t {
      parent = none;
      first_child = none;
      next_sibling = none;
      owner_next = trace.all_spans;
    } in
    let len = length-append {A = Span} done (clear i s ∷ []) in
    let one : length (done ++ (clear i s ∷ [])) ≡ suc i = omega (arith, len) in
    let total : suc i + length rest ≡ i + suc (length rest) = omega arith in
    let cleared : f s ≡ clear i s = rw e refl in
    let ih =
      take_ownership_lem (done ++ (clear i s ∷ [])) rest (record trace { all_spans = some i })
        (rw one refl) in
    rw
      (
        update_lem (done ++ (s ∷ rest)) i f
            (omega (arith, length-append {A = Span} done (s ∷ rest))),
        modify-append done s rest f,
        cleared,
      )
      (rw
        (
          one,
          append_assoc done (clear i s ∷ []) rest,
          append_assoc done (clear i s ∷ []) (clear_all (suc i) rest),
          total,
        )
        at ih)
