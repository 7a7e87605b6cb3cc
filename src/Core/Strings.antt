-- ===== src/Core/Strings.antt =====
-- NUL-terminated strings in `char` arrays: `strlen`, `strncpy` and the copies of src/core/span.c
-- and src/wire/serialize.c.
use dapper_lite.Prelude.{
  ℕ, zero, suc, ◌-◌, ◌≤◌, ◌<◌, ◌≡◌, ◌≢◌, refl, ap, List, [], ◌∷◌, ◌++◌, arith, ◌==◌, if◌then◌else◌,
  length, take, drop, set, replicate, All, length-append, length-replicate, take_self,
}

-- The bytes before the first NUL of an array.
unfoldable pub c_str : List ℕ → List ℕ
c_str [] = []
c_str (b ∷ bs) = if b == 0 then [] else (b ∷ c_str bs)

unfoldable pub strlen : List ℕ → ℕ
unfolding c_str
strlen a = length (c_str a)

-- `strncpy(dest, src, n)` of the string `src`: at most `n` bytes, padded with NULs up to `n`.
unfoldable pub strncpy : List ℕ → List ℕ → ℕ → List ℕ
strncpy dest src n = (take n src ++ replicate (n - length src) 0) ++ drop n dest

-- `safe_strncpy` of span.c.
unfoldable pub safe_strncpy : List ℕ → List ℕ → ℕ → List ℕ
unfolding strncpy
safe_strncpy dest src dest_size =
    if dest_size == 0 then dest else set (strncpy dest src (dest_size - 1)) (dest_size - 1) 0

-- An array of `n` bytes that holds the string `s` and NULs behind it.
unfoldable pub c_array : ℕ → List ℕ → List ℕ
c_array n s = s ++ replicate (n - length s) 0

abbrev pub NonNul : ℕ → Type 0
NonNul b = b ≢ 0

-- The array has `n` bytes and holds a string, its terminating NUL included. What stands behind
-- the NUL is left open.
pub record IsString (n : ℕ) (a : List ℕ) : Type 0 where
  pub size : length a ≡ n
  pub short : strlen a < n

c_str-append : (s : List ℕ) (k : ℕ) → All NonNul s → c_str (s ++ replicate k 0) ≡ s
unfolding c_str
c_str-append [] zero h = refl
c_str-append [] (suc k) h = refl
c_str-append (b ∷ s) k h = ground (arith, c_str-append s k h.1)

pub c_str-c_array : (n : ℕ) (s : List ℕ) → All NonNul s → c_str (c_array n s) ≡ s
unfolding c_array
c_str-c_array n s h = c_str-append s (n - length s) h

pub length-c_array : (n : ℕ) (s : List ℕ) → length s ≤ n → length (c_array n s) ≡ n
unfolding c_array
length-c_array n s h = omega (
  arith,
  length-append {A = ℕ} s (replicate (n - length s) 0),
  length-replicate {A = ℕ} (n - length s) 0,
)

pub take-c_array : (n : ℕ) (s : List ℕ) → take (length s) (c_array n s) ≡ s
unfolding c_array
take-c_array n s = take_self s _

pub length-c_str : (a : List ℕ) → length (c_str a) ≡ strlen a
unfolding strlen
length-c_str a = refl

pub strlen-le-length : (a : List ℕ) → strlen a ≤ length a
unfolding strlen
strlen-le-length [] = omega arith
strlen-le-length (b ∷ a) = ground (arith, strlen-le-length a)

pub take-strlen : (a : List ℕ) → take (strlen a) a ≡ c_str a
unfolding strlen
take-strlen [] = refl
take-strlen (b ∷ a) = ground (arith, take-strlen a)

pub strlen-c_array : (n : ℕ) (s : List ℕ) → All NonNul s → strlen (c_array n s) ≡ length s
unfolding strlen
strlen-c_array n s h = ap length (c_str-c_array n s h)

strlen-append-le : (s : List ℕ) (k : ℕ) → strlen (s ++ replicate k 0) ≤ length s
unfolding strlen
strlen-append-le [] zero = omega arith
strlen-append-le [] (suc k) = omega arith
strlen-append-le (b ∷ s) k = ground (arith, strlen-append-le s k)

-- Whatever the bytes of `s`, the array made of them is a string.
pub c_array-IsString : (n : ℕ) (s : List ℕ) → length s < n → IsString n (c_array n s)
unfolding c_array
c_array-IsString n s h = record {
  size = length-c_array n s (omega arith);
  short = omega (arith, strlen-append-le s (n - length s));
}
