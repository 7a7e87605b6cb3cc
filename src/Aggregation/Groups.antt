-- ===== src/Aggregation/Groups.antt =====
-- What a group holds, and what a sample does to it.
use dapper_lite.Prelude.{
  ℕ, zero, suc, ◌<◌, ◌≤◌, ◌≡◌, refl, ap, ap₂, sym, inl, inr, true, false, Bool-cases, List, [], ◌∷◌,
  ◌++◌, leb, ◌==◌, ==→eq, length, take, arith, length-append,
}
use dapper_lite.Sampler.{same_string}
use dapper_lite.Aggregation.{Group, add_sample, with_sample, max_samples}

pub same_string_self : (s : List ℕ) → same_string s s ≡ true
same_string_self [] = refl
same_string_self (b ∷ s) = let e : (b == b) ≡ true = ground arith in rw e (same_string_self s)

pub same_string→eq : (s t : List ℕ) → same_string s t ≡ true → s ≡ t
same_string→eq [] [] h = refl
same_string→eq [] (b ∷ t) h = cc
same_string→eq (a ∷ s) [] h = cc
same_string→eq (a ∷ s) (b ∷ t) h = elim (Bool-cases (a == b)) [
  | inl e ↦ ap₂ ◌∷◌ (==→eq a b e) (same_string→eq s t (rw e at h))
  | inr e ↦ let f : false ≡ true = rw e at h in cc
]

module _ {D : Type 0} where
  pub record IsGroup (g : Group D) : Type 0 where
    pub fits : length g.latencies ≤ g.capacity
    pub positive : 0 < g.capacity
    pub bounded : g.capacity ≤ max_samples

  take_append :
      (n : ℕ) (xs : List D) (v : D) → length xs < n → take n (xs ++ (v ∷ [])) ≡ xs ++ (v ∷ [])
  take_append zero xs v h = absurd (omega (arith, h))
  take_append (suc zero) [] v h = refl
  take_append (suc (suc n)) [] v h = refl
  take_append (suc n) (x ∷ xs) v h = ap (λ t. x ∷ t) (take_append n xs v (omega (arith, h)))

  take_full : (n : ℕ) (xs : List D) (v : D) → length xs ≡ n → take n (xs ++ (v ∷ [])) ≡ xs
  take_full zero [] v h = refl
  take_full zero (x ∷ xs) v h = absurd (omega (arith, h))
  take_full (suc n) [] v h = absurd (omega (arith, h))
  take_full (suc n) (x ∷ xs) v h = ap (λ t. x ∷ t) (take_full n xs v (omega (arith, h)))

  -- A sample is appended unless the group is full, and the group stays as it should be.
  pub with_sample_lem :
      (v : D) (g : Group D)
      → IsGroup g
      → ((with_sample v g).name ≡ g.name)
        × ((with_sample v g).latencies ≡ take max_samples (g.latencies ++ (v ∷ [])))
        × IsGroup (with_sample v g)
  unfolding with_sample add_sample
  with_sample_lem v g i =
      let len = length-append {A = D} g.latencies (v ∷ []) in
      elim (Bool-cases (leb g.capacity (length g.latencies))) [
        | inl full ↦ elim (Bool-cases (leb 65536 g.capacity)) [
          | inl cap ↦
              let all : length g.latencies ≡ 65536 = ground (arith, full, cap, i) in
              rw (full, cap, with_sample) (refl, sym (take_full 65536 g.latencies v all), i)
          | inr more ↦
              let room : length g.latencies < 65536 = ground (arith, more, i) in
              rw (full, more, with_sample)
                (
                  refl,
                  sym (take_append 65536 g.latencies v room),
                  record {
                    fits = ground (arith, len, more, i);
                    positive = ground (arith, i);
                    bounded = ground (arith, i);
                  },
                )
        ]
        | inr free ↦
            let room : length g.latencies < 65536 = ground (arith, free, i) in
            rw (free, with_sample)
              (
                refl,
                sym (take_append 65536 g.latencies v room),
                record {
                  fits = ground (arith, len, free);
                  positive = i.positive;
                  bounded = i.bounded;
                },
              )
      ]
