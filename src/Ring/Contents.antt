-- ===== src/Ring/Contents.antt =====
-- The entries that wait in a ring, oldest first, and where they stand.
use dapper_lite.Prelude.{
  ℕ, zero, suc, ◌+◌, ◌-◌, ◌%◌, ◌<◌, ◌≡◌, ◌≢◌, refl, none, some, List, [], ◌∷◌, arith, ltb,
  if◌then◌else◌, length, get_elem?, set, All, get_elem?-set_self, get_elem?-set_ne,
}
use native.Mathlib.Decide.{dec_lt}
use native.Mathlib.Nat.{mod-eq_of_lt, mod-eq-sub-mod}
use dapper_lite.Prelude.Outcome.{ok}
use dapper_lite.ByteOrder.{Host}
use dapper_lite.Ring.{Ring, slot_at, entry_size}
use dapper_lite.Ring.Slots.{payload}
use dapper_lite.Ring.Queue.{tabulate, length-tabulate, Queue}

abbrev pub IsSlot : List ℕ → Type 0
IsSlot s = length s ≡ entry_size

pub record IsValid (rb : Ring) : Type 0 where
  pub write_in : rb.write_index < rb.capacity
  pub read_in : rb.read_index < rb.capacity
  pub count : length rb.slots ≡ rb.capacity
  pub sized : All (λ s. length s ≡ entry_size) rb.slots

abbrev pub used : Ring → ℕ
used rb =
    if ltb rb.write_index rb.read_index
    then rb.write_index + rb.capacity - rb.read_index
    else rb.write_index - rb.read_index

pub wrap : (x cap : ℕ) → x < cap + cap → x % cap ≡ (if ltb x cap then x else x - cap)
wrap x cap h = elim (dec_lt x cap) [
  | yes p ↦ ground (arith, mod-eq_of_lt p)
  | no p ↦ ground (
    arith,
    mod-eq-sub-mod {n = x} {m = cap} (omega arith),
    mod-eq_of_lt {n = x - cap} {m = cap} (omega arith),
  )
]

-- The index of the `i`-th entry that is waiting.
abbrev pub index : Ring → ℕ → ℕ
index rb i = (rb.read_index + i) % rb.capacity

pub nth : List (List ℕ) → ℕ → List ℕ
nth slots i = elim (get_elem? slots i) [ none ↦ [] | some s ↦ s ]

unfoldable pub contents : Host → Ring → Queue
unfolding nth
contents host rb = tabulate (λ i. payload host (nth rb.slots (index rb i))) (used rb)

-- What `slot_at` finds below the capacity.
pub slot_at_lem :
    (slots : List (List ℕ)) (i : ℕ) → i < length slots → slot_at slots i ≡ ok (nth slots i)
unfolding slot_at nth
slot_at_lem [] i h = absurd (omega arith)
slot_at_lem (s ∷ slots) zero h = refl
slot_at_lem (s ∷ slots) (suc i) h = slot_at_lem slots i (omega arith)

pub nth_sized :
    (slots : List (List ℕ)) (i : ℕ)
    → i < length slots
    → All IsSlot slots
    → length (nth slots i) ≡ entry_size
unfolding nth
nth_sized [] i h a = absurd (omega arith)
nth_sized (s ∷ slots) zero h a = a.0
nth_sized (s ∷ slots) (suc i) h a = nth_sized slots i (omega arith) a.1

pub set_sized :
    (slots : List (List ℕ)) (i : ℕ) (s : List ℕ)
    → length s ≡ entry_size
    → All IsSlot slots
    → All IsSlot (set slots i s)
set_sized [] i s h a = tt
set_sized (t ∷ slots) zero s h a = (h, a.1)
set_sized (t ∷ slots) (suc i) s h a = (a.0, set_sized slots i s h a.1)

pub nth-set_self :
    (slots : List (List ℕ)) (i : ℕ) (s : List ℕ) → i < length slots → nth (set slots i s) i ≡ s
unfolding nth
nth-set_self slots i s h = rw (get_elem?-set_self slots i s h, nth)

pub nth-set_ne :
    (slots : List (List ℕ)) (i j : ℕ) (s : List ℕ) → i ≢ j → nth (set slots i s) j ≡ nth slots j
unfolding nth
nth-set_ne slots i j s h = rw (get_elem?-set_ne slots s h, nth)

pub used-lt : {rb : Ring} → IsValid rb → used rb < rb.capacity
used-lt v = ground arith

-- The entry that is written next stands behind the last one, and is none of those that wait.
pub index-used : {rb : Ring} → IsValid rb → index rb (used rb) ≡ rb.write_index
index-used {rb} v =
    ground
      (arith, v, wrap (rb.read_index + used rb) rb.capacity (omega (arith, v.read_in, used-lt v)))

pub index-ne : {rb : Ring} (i : ℕ) → IsValid rb → i < used rb → rb.write_index ≢ index rb i
index-ne {rb} i v h =
    ground (arith, v, wrap (rb.read_index + i) rb.capacity (omega (arith, v.read_in, used-lt v)))

pub length-contents : (host : Host) (rb : Ring) → length (contents host rb) ≡ used rb
unfolding contents
length-contents host rb = length-tabulate (λ i. payload host (nth rb.slots (index rb i))) (used rb)
