-- ===== src/Aggregation/Collect.antt =====
-- The groups after a walk hold the durations of the spans with their names.
use mathlib.Core.Option
use dapper_lite.Prelude.{
  ℕ, suc, ◌≤◌, ◌≡◌, refl, ap, sym, ◌∙◌, ◌⊎◌, inl, inr, true, false, Bool-cases, Option-cases, ◌||◌,
  Option, none, some, List, [], ◌∷◌, ◌++◌, leb, ◌==◌, if◌then◌else◌, length, take, All, All-append,
  arith, length-append,
}
use dapper_lite.Core.{Span}
use dapper_lite.Core.Strings.{c_str, c_str-c_array, IsString, NonNul, length-c_str}
use dapper_lite.Core.Copies.{safe_strncpy-zeroed}
use dapper_lite.CriticalPath.{span_duration_us}
use dapper_lite.Sampler.{same_string}
use dapper_lite.Aggregation.{
  Group, find_group, create_group, find_or_create_group, new_group, add_to, collect_span_visit,
  max_samples, max_groups,
}
use dapper_lite.Aggregation.Groups.{same_string_self, same_string→eq, IsGroup}
use dapper_lite.Aggregation.Visit.{
  samples, has_group, found, not_found, has_group-append, samples-append,
}

c_str-NonNul : (a : List ℕ) → All NonNul (c_str a)
unfolding c_str
c_str-NonNul [] = tt
c_str-NonNul (b ∷ a) = elim (Bool-cases (b == 0)) [
  | inl e ↦ rw e tt
  | inr e ↦ rw e ((λ z. absurd (ground (arith, e, z))), c_str-NonNul a)
]

new_group_name :
    (D : Type 0) (name : List ℕ)
    → IsString 128 name
    → c_str (new_group {D = D} name).name ≡ c_str name
new_group_name D name h =
    ap c_str (safe_strncpy-zeroed 127 (c_str name) (omega (arith, length-c_str name, h.short)))
    ∙ c_str-c_array 128 (c_str name) (c_str-NonNul name)

module _ {D : Type 0} where
  pub present-known :
      (groups : List (Group D)) (y x : List ℕ)
      → has_group groups y ≡ true
      → has_group groups x ≡ (has_group groups x || same_string y x)
  present-known groups y x h = elim (Bool-cases (same_string y x)) [
    | inl e ↦
        let here : has_group groups x ≡ true =
          ap (has_group groups) (sym (same_string→eq y x e)) ∙ h in
        ground (arith, here)
    | inr e ↦ ground (arith, e)
  ]

  find_group-new :
      (groups : List (Group D)) (name : List ℕ)
      → IsString 128 name
      → find_group groups name ≡ none
      → find_group (groups ++ (new_group name ∷ [])) name ≡ some (length groups)
  unfolding find_group
  find_group-new [] name h n = rw (new_group_name D name h, same_string_self (c_str name)) refl
  find_group-new (g ∷ groups) name h n =
      elim (Bool-cases (same_string (c_str g.name) (c_str name))) [
        | inl e ↦ let f : ◌≡◌ {A = Option ℕ} (some 0) none = rw e at n in cc
        | inr e ↦
            let later : Option.map suc (find_group groups name) ≡ none = rw e at n in
            elim (Option-cases (find_group groups name)) [
              | inl m ↦ rw (e, find_group-new groups name h m) refl
              | inr (j, m) ↦ let f : ◌≡◌ {A = Option ℕ} (some (suc j)) none = rw m at later in cc
            ]
      ]

  -- What a visit does to the group of one name.
  pub record Kept (groups groups' : List (Group D)) (y x : List ℕ) (v : D) : Type 0 where
    pub known : has_group groups' x ≡ (has_group groups x || same_string y x)
    pub kept : samples groups' x ≡ (
        if same_string y x
        then take max_samples (samples groups x ++ (v ∷ []))
        else samples groups x)

  module _ (to_double : ℕ → D) where
    -- The groups are full, or the span is stored.
    pub visit :
        (groups : List (Group D)) (span : Span)
        → IsString 128 span.name
        → All IsGroup groups
        → (collect_span_visit to_double groups span ≡ groups)
            × (has_group groups (c_str span.name) ≡ false)
            × (max_groups ≤ length groups)
          ⊎ All IsGroup (collect_span_visit to_double groups span)
            × (length groups ≤ max_groups
                → length (collect_span_visit to_double groups span) ≤ max_groups)
            × (max_groups ≤ length groups
                → (has_group groups (c_str span.name) ≡ true)
                  × (length (collect_span_visit to_double groups span) ≡ length groups))
            × ((x : List ℕ)
                → Kept groups
                    (collect_span_visit to_double groups span)
                    (c_str span.name)
                    x
                    (to_double (span_duration_us span)))
    unfolding collect_span_visit find_or_create_group create_group add_to
    visit groups span h a =
        let y = c_str span.name in
        let v = to_double (span_duration_us span) in
        elim (Option-cases (find_group groups span.name)) [
          | inr (i, e) ↦
              let st = found groups span.name v a e in
              rw (e, create_group)
                (inr (
                  st.valid,
                  (λ b. omega (arith, st.size, b)),
                  (λ full. (st.present, st.size)),
                  (λ x. record {
                    known = st.known x ∙ present-known groups y x st.present;
                    kept = st.kept x;
                  }),
                ))
          | inl e ↦ elim (Bool-cases (leb 256 (length groups))) [
            | inl full ↦
                rw (e, full, create_group)
                  (inl (refl, not_found groups span.name e, ground (arith, full)))
            | inr room ↦
                let grown = groups ++ (new_group span.name ∷ []) in
                let new = new_group {D = D} span.name in
                let fresh : IsGroup new = record {
                  fits = omega arith;
                  positive = omega arith;
                  bounded = omega arith;
                } in
                let valid = All-append IsGroup groups (new ∷ []) a (fresh, tt) in
                let st = found grown span.name v valid (find_group-new groups span.name h e) in
                rw (e, room, create_group)
                  (inr (
                    st.valid,
                    (λ b.
                        ground
                          (arith, room, st.size, length-append {A = Group D} groups (new ∷ []))),
                    (λ full. absurd (ground (arith, room, full))),
                    (λ x. record {
                      known =
                          st.known x
                          ∙ has_group-append groups new x
                          ∙ ap (λ n. has_group groups x || same_string n x)
                              (new_group_name D span.name h);
                      kept =
                          st.kept x
                          ∙ ap
                              (λ l. if same_string y x then take max_samples (l ++ (v ∷ [])) else l)
                              (samples-append groups new x refl);
                    }),
                  ))
          ]
        ]
