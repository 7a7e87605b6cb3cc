-- ===== src/Ring/Queue.antt =====
-- Lists of `n` values of a function, and the bounded queue that the ring implements.
use dapper_lite.Prelude.{
  ℕ, zero, suc, ◌<◌, ◌≡◌, refl, ap, ap₂, List, [], ◌∷◌, ◌++◌, arith, length, ◌==◌, if◌then◌else◌,
}
use dapper_lite.Prelude.Outcome.{Outcome, ok, failed}

module _ {ℓ} {A : Type ℓ} where
  unfoldable pub tabulate : (ℕ → A) → ℕ → List A
  tabulate f zero = []
  tabulate f (suc n) = f 0 ∷ tabulate (λ i. f (suc i)) n

  pub length-tabulate : (f : ℕ → A) (n : ℕ) → length (tabulate f n) ≡ n
  unfolding tabulate
  length-tabulate f zero = refl
  length-tabulate f (suc n) = ap suc (length-tabulate (λ i. f (suc i)) n)

  pub tabulate-snoc : (f : ℕ → A) (n : ℕ) → tabulate f (suc n) ≡ tabulate f n ++ (f n ∷ [])
  unfolding tabulate
  tabulate-snoc f zero = refl
  tabulate-snoc f (suc n) = ap (λ t. f 0 ∷ t) (tabulate-snoc (λ i. f (suc i)) n)

  pub tabulate-congr :
      (f g : ℕ → A) (n : ℕ) → ((i : ℕ) → i < n → f i ≡ g i) → tabulate f n ≡ tabulate g n
  unfolding tabulate
  tabulate-congr f g zero h = refl
  tabulate-congr f g (suc n) h =
      ap₂ ◌∷◌ (h 0 (omega arith))
        (tabulate-congr (λ i. f (suc i)) (λ i. g (suc i)) n (λ i l. h (suc i) (omega arith)))

  pub tabulate-suc : (f : ℕ → A) (n : ℕ) → tabulate f (suc n) ≡ f 0 ∷ tabulate (λ i. f (suc i)) n
  unfolding tabulate
  tabulate-suc f n = refl

-- A queue of at most `limit` entries, oldest first.
abbrev pub Queue : Type 0
Queue = List (List ℕ)

unfoldable pub put : ℕ → Queue → List ℕ → Outcome Queue
put limit q x = if length q == limit then failed else ok (q ++ (x ∷ []))

unfoldable pub get : Queue → Outcome (List ℕ × Queue)
get [] = failed
get (x ∷ q) = ok (x, q)

pub put_ok :
    (limit : ℕ) (q : Queue) (x : List ℕ) {q' : Queue} → ok q' ≡ put limit q x → q' ≡ q ++ (x ∷ [])
unfolding put
put_ok limit q x h = ground arith

pub get_ok : (q : Queue) {x : List ℕ} {q' : Queue} → ok (x, q') ≡ get q → q ≡ x ∷ q'
unfolding get
get_ok [] h = cc
get_ok (y ∷ q) h = cc

pub get_failed : (q : Queue) → failed ≡ get q → q ≡ []
unfolding get
get_failed [] h = refl
get_failed (y ∷ q) h = cc
