-- ===== src/Aggregation/Visit.antt =====
-- What a visit of a span does to the groups.
use mathlib.Core.Option
use dapper_lite.Prelude.{
  ℕ, suc, ◌≡◌, refl, ap, sym, ◌∙◌, inl, inr, Bool, true, false, Bool-cases, Option-cases, ◌||◌,
  Option, none, some, List, [], ◌∷◌, ◌++◌, if◌then◌else◌, length, take, All, arith,
}
use dapper_lite.Core.Strings.{c_str}
use dapper_lite.Sampler.{same_string}
use dapper_lite.Aggregation.{Group, find_group, with_sample, alter, max_samples}
use dapper_lite.Aggregation.Groups.{same_string_self, same_string→eq, IsGroup, with_sample_lem}

module _ {D : Type 0} where
  -- The durations that are kept for a name.
  unfoldable pub samples : List (Group D) → List ℕ → List D
  samples [] x = []
  samples (g ∷ groups) x = if same_string (c_str g.name) x then g.latencies else samples groups x

  unfoldable pub has_group : List (Group D) → List ℕ → Bool
  has_group [] x = false
  has_group (g ∷ groups) x = same_string (c_str g.name) x || has_group groups x

  pub samples-none :
      (groups : List (Group D)) (x : List ℕ) → has_group groups x ≡ false → samples groups x ≡ []
  unfolding samples has_group
  samples-none [] x h = refl
  samples-none (g ∷ groups) x h = elim (Bool-cases (same_string (c_str g.name) x)) [
    | inl e ↦ let f : true ≡ false = rw e at h in cc
    | inr e ↦ let f : has_group groups x ≡ false = rw e at h in rw e (samples-none groups x f)
  ]

  -- A sample that is stored for a name in one of the groups.
  pub record Stored (groups groups' : List (Group D)) (y : List ℕ) (v : D) : Type 0 where
    pub present : has_group groups y ≡ true
    pub valid : All IsGroup groups'
    pub size : length groups' ≡ length groups
    pub known : (x : List ℕ) → has_group groups' x ≡ has_group groups x
    pub kept :
        (x : List ℕ)
        → samples groups' x ≡ (
            if same_string y x
            then take max_samples (samples groups x ++ (v ∷ []))
            else samples groups x)

  Stored-first :
      (g : Group D) (groups : List (Group D)) (y : List ℕ) (v : D)
      → All IsGroup (g ∷ groups)
      → c_str g.name ≡ y
      → Stored (g ∷ groups) (with_sample v g ∷ groups) y v
  unfolding has_group samples
  Stored-first g groups y v a q =
      let (same, all, valid) = with_sample_lem v g a.0 in
      let name : c_str (with_sample v g).name ≡ y = ap c_str same ∙ q in
      record {
        present = rw (q, same_string_self y) refl;
        valid = (valid, a.1);
        size = refl;
        known = λ x. rw (name, q) refl;
        kept = λ x. elim (Bool-cases (same_string y x)) [
          | inl e ↦ rw (name, q, e, all) refl
          | inr e ↦ rw (name, q, e) refl
        ];
      }

  Stored-later :
      (g : Group D) (groups groups' : List (Group D)) (y : List ℕ) (v : D)
      → IsGroup g
      → same_string (c_str g.name) y ≡ false
      → Stored groups groups' y v
      → Stored (g ∷ groups) (g ∷ groups') y v
  unfolding has_group samples
  Stored-later g groups groups' y v i apart st = record {
    present = rw (apart, st.present) refl;
    valid = (i, st.valid);
    size = ap suc st.size;
    known = λ x. ap (λ b. same_string (c_str g.name) x || b) (st.known x);
    kept = λ x. elim (Bool-cases (same_string (c_str g.name) x)) [
      | inl e ↦
          let other : same_string y x ≡ false = elim (Bool-cases (same_string y x)) [
            | inl f ↦
                let q : c_str g.name ≡ y =
                  same_string→eq (c_str g.name) x e ∙ sym (same_string→eq y x f) in
                let t : same_string (c_str g.name) y ≡ true =
                  ap (same_string (c_str g.name)) (sym q) ∙ same_string_self (c_str g.name) in
                cc
            | inr f ↦ f
          ] in
          rw (e, other) refl
      | inr e ↦ rw e (st.kept x)
    ];
  }

  pub found :
      (groups : List (Group D)) (name : List ℕ) (v : D) {i : ℕ}
      → All IsGroup groups
      → find_group groups name ≡ some i
      → Stored groups (alter groups i (with_sample v)) (c_str name) v
  unfolding find_group
  found [] name v a h = cc
  found (g ∷ groups) name v {i} a h = elim (Bool-cases (same_string (c_str g.name) (c_str name))) [
    | inl e ↦
        let first : some 0 ≡ some i = rw e at h in
        let zero_index : i ≡ 0 = cc in
        rw zero_index
          (Stored-first g groups (c_str name) v a (same_string→eq (c_str g.name) (c_str name) e))
    | inr e ↦
        let later : Option.map suc (find_group groups name) ≡ some i = rw e at h in
        elim (Option-cases (find_group groups name)) [
          | inl n ↦ let f : ◌≡◌ {A = Option ℕ} none (some i) = rw n at later in cc
          | inr (j, n) ↦
              let f : some (suc j) ≡ some i = rw n at later in
              let next_index : i ≡ suc j = cc in
              rw next_index (
                Stored-later g groups (alter groups j (with_sample v)) (c_str name) v a.0 e
                  (found groups name v a.1 n))
        ]
  ]

  pub not_found :
      (groups : List (Group D)) (name : List ℕ)
      → find_group groups name ≡ none
      → has_group groups (c_str name) ≡ false
  unfolding find_group has_group
  not_found [] name h = refl
  not_found (g ∷ groups) name h = elim (Bool-cases (same_string (c_str g.name) (c_str name))) [
    | inl e ↦ let f : ◌≡◌ {A = Option ℕ} (some 0) none = rw e at h in cc
    | inr e ↦
        let later : Option.map suc (find_group groups name) ≡ none = rw e at h in
        elim (Option-cases (find_group groups name)) [
          | inl n ↦ rw (e, not_found groups name n) refl
          | inr (j, n) ↦ let f : ◌≡◌ {A = Option ℕ} (some (suc j)) none = rw n at later in cc
        ]
  ]

  -- A new group behind the others.
  pub has_group-append :
      (groups : List (Group D)) (g : Group D) (x : List ℕ)
      → has_group (groups ++ (g ∷ [])) x ≡ (has_group groups x || same_string (c_str g.name) x)
  unfolding has_group
  has_group-append [] g x = ground arith
  has_group-append (h ∷ groups) g x = ground (arith, has_group-append groups g x)

  pub samples-append :
      (groups : List (Group D)) (g : Group D) (x : List ℕ)
      → g.latencies ≡ []
      → samples (groups ++ (g ∷ [])) x ≡ samples groups x
  unfolding samples
  samples-append [] g x e = ground (arith, e)
  samples-append (h ∷ groups) g x e =
      ap (λ r. if same_string (c_str h.name) x then h.latencies else r)
        (samples-append groups g x e)
