-- ===== src/Core/Copies.antt =====
-- A short string is copied whole into a zeroed array.
use dapper_lite.Prelude.{
  ℕ, zero, suc, ◌-◌, ◌≤◌, ◌≡◌, refl, ap, List, [], ◌∷◌, ◌++◌, false, arith, ◌==◌, length, take,
  drop, set, replicate, append_assoc,
}
use dapper_lite.Core.Strings.{strncpy, safe_strncpy, c_array}

abbrev zeros : ℕ → List ℕ
zeros k = replicate k 0

abbrev last_zero : List ℕ
last_zero = 0 ∷ []

set-zero : (k i : ℕ) → set (zeros k) i 0 ≡ zeros k
set-zero zero i = refl
set-zero (suc k) zero = refl
set-zero (suc k) (suc i) = ap (λ xs. 0 ∷ xs) (set-zero k i)

set-behind : (s : List ℕ) (k i : ℕ) → length s ≤ i → set (s ++ zeros k) i 0 ≡ s ++ zeros k
set-behind [] k i h = set-zero k i
set-behind (b ∷ s) k zero h = absurd (omega (arith, h))
set-behind (b ∷ s) k (suc i) h = ap (λ xs. b ∷ xs) (set-behind s k i (omega (arith, h)))

replicate-snoc : (k : ℕ) → zeros k ++ last_zero ≡ zeros (suc k)
replicate-snoc zero = refl
replicate-snoc (suc k) = ap (λ xs. 0 ∷ xs) (replicate-snoc k)

drop-replicate : (n : ℕ) → drop n (zeros (suc n)) ≡ last_zero
drop-replicate zero = refl
drop-replicate (suc n) = drop-replicate n

take_all : (n : ℕ) (s : List ℕ) → length s ≤ n → take n s ≡ s
take_all zero [] h = refl
take_all zero (b ∷ s) h = absurd (omega (arith, h))
take_all (suc n) [] h = refl
take_all (suc n) (b ∷ s) h = ap (λ xs. b ∷ xs) (take_all n s (omega (arith, h)))

pub safe_strncpy-zeroed :
    (n : ℕ) (s : List ℕ) → length s ≤ n → safe_strncpy (zeros (suc n)) s (suc n) ≡ c_array (suc n) s
unfolding safe_strncpy strncpy c_array
safe_strncpy-zeroed n s h =
    let positive : (suc n == 0) ≡ false = ground arith in
    let last : suc n - 1 ≡ n = omega arith in
    let k = n - length s in
    let more : suc n - length s ≡ suc k = omega (arith, h) in
    rw
      (
        positive,
        last,
        take_all n s h,
        drop-replicate n,
        append_assoc s (zeros k) last_zero,
        replicate-snoc k,
        more,
      )
      (set-behind s (suc k) n h)
