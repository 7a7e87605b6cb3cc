-- ===== src/Json/Collected.antt =====
-- The array that src/analysis/export_json.c collects the spans of a trace in.
use dapper_lite.Prelude.{
  ℕ, zero, suc, ◌*◌, ◌≡◌, refl, sym, ap, ap₂, ◌∙◌, ◌⊎◌, Bool, if◌then◌else◌, true, false,
  Bool-cases, inl, inr, List, [], ◌∷◌, ◌++◌, leb, length, take, All, append_assoc, append-nil,
}
use dapper_lite.Core.{Span}
use dapper_lite.CriticalPath.{SpanTree, span_tree_walk_preorder}
use dapper_lite.Json.Document.{SpanArray, Memory, collect_span_into_array, collect_all, collected}

abbrev pub Refused : Memory → Type 0
Refused memory =
    (memory.first_array ≡ false) ⊎ ((capacity : ℕ) × (memory.larger_array capacity ≡ false))

-- The first of the spans behind those of `done`: all, unless a request for memory was refused.
pub record Prefix (memory : Memory) (done spans arr : List Span) : Type 0 where
  pub count : ℕ
  pub first : arr ≡ done ++ take count spans
  pub all : (take count spans ≡ spans) ⊎ Refused memory

-- A full array for which no larger one is granted stays as it is.
collect_all-full :
    (memory : Memory) (a : SpanArray) (spans : List Span)
    → leb a.capacity (length a.arr) ≡ true
    → memory.larger_array (a.capacity * 2) ≡ false
    → collect_all memory a spans ≡ a
unfolding collect_all collect_span_into_array
collect_all-full memory a [] full refused = refl
collect_all-full memory a (span ∷ spans) full refused =
    rw (full, refused) (collect_all-full memory a spans full refused)

after_one :
    (memory : Memory) (done : List Span) (span : Span) (spans arr : List Span)
    → Prefix memory (done ++ (span ∷ [])) spans arr
    → Prefix memory done (span ∷ spans) arr
after_one memory done span spans arr p = record {
  count = suc p.count;
  first = p.first ∙ append_assoc done (span ∷ []) (take p.count spans);
  all = elim p.all [ inl e ↦ inl (ap (λ xs. span ∷ xs) e) | inr r ↦ inr r ];
}

Prefix-eq :
    (memory : Memory) (done spans : List Span) {arr other : List Span}
    → arr ≡ other
    → Prefix memory done spans other
    → Prefix memory done spans arr
Prefix-eq memory done spans e p = record { count = p.count; first = e ∙ p.first; all = p.all }

grown_if : Memory → SpanArray → Span → Bool → Bool → SpanArray
grown_if memory a span full granted =
    if full
    then if granted then record { arr = a.arr ++ (span ∷ []); capacity = a.capacity * 2 } else a
    else (record a { arr = a.arr ++ (span ∷ []) })

collect_all-Prefix :
    (memory : Memory) (a : SpanArray) (spans : List Span)
    → Prefix memory a.arr spans (collect_all memory a spans).arr
unfolding collect_all collect_span_into_array grown_if
collect_all-Prefix memory a [] = record {
  count = zero;
  first = sym (append-nil a.arr);
  all = inl refl;
}
collect_all-Prefix memory a (span ∷ spans) =
    let longer = a.arr ++ (span ∷ []) in
    let room = leb a.capacity (length a.arr) in
    let grant = memory.larger_array (a.capacity * 2) in
    elim (Bool-cases room) [
      | inl full ↦ elim (Bool-cases grant) [
        | inl granted ↦
            let next : SpanArray = record { arr = longer; capacity = a.capacity * 2 } in
            let step : collect_span_into_array memory a span ≡ next =
              ap₂ (λ x y. grown_if memory a span x y) full granted in
            Prefix-eq memory a.arr (span ∷ spans) (ap (λ b. (collect_all memory b spans).arr) step)
              (after_one memory a.arr span spans _ (collect_all-Prefix memory next spans))
        | inr refused ↦ record {
          count = zero;
          first =
              ap (λ b. b.arr) (collect_all-full memory a (span ∷ spans) full refused)
              ∙ sym (append-nil a.arr);
          all = inr (inr (a.capacity * 2, refused));
        }
      ]
      | inr free ↦
          let next : SpanArray = record a { arr = longer } in
          let step : collect_span_into_array memory a span ≡ next =
            ap (λ x. grown_if memory a span x grant) free in
          Prefix-eq memory a.arr (span ∷ spans) (ap (λ b. (collect_all memory b spans).arr) step)
            (after_one memory a.arr span spans _ (collect_all-Prefix memory next spans))
    ]

pub collected-Prefix :
    (memory : Memory) (root : SpanTree)
    → Prefix memory [] (span_tree_walk_preorder root) (collected memory root)
unfolding collected
collected-Prefix memory root =
    let spans = span_tree_walk_preorder root in
    let all = (collect_all memory (record { arr = []; capacity = 32 }) spans).arr in
    elim (Bool-cases memory.first_array) [
      | inl granted ↦
          Prefix-eq memory [] spans (ap (λ b. if b then all else []) granted)
            (collect_all-Prefix memory (record { arr = []; capacity = 32 }) spans)
      | inr refused ↦
          Prefix-eq memory [] spans (ap (λ b. if b then all else []) refused)
            (record { count = zero; first = refl; all = inr (inl refused) })
    ]

pub All-take : (P : Span → Type 0) (n : ℕ) (spans : List Span) → All P spans → All P (take n spans)
All-take P zero spans h = tt
All-take P (suc n) [] h = tt
All-take P (suc n) (span ∷ spans) h = (h.0, All-take P n spans h.1)
