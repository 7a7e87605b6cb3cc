-- ===== src/Ring/Advance.antt =====
-- How a push and a pop move the indices, and what waits then.
use dapper_lite.Prelude.{
  ℕ, suc, ◌+◌, ◌-◌, ◌%◌, ◌<◌, ◌≡◌, true, false, sym, ap, List, [], ◌∷◌, ◌++◌, arith, ◌==◌, length,
  set,
}
use dapper_lite.ByteOrder.{Host}
use dapper_lite.Ring.{Ring}
use dapper_lite.Ring.Slots.{payload}
use dapper_lite.Ring.Queue.{tabulate, tabulate-snoc, tabulate-congr, tabulate-suc}
use dapper_lite.Ring.Contents.{
  IsValid, used, used-lt, wrap, index, nth, contents, nth-set_self, nth-set_ne, index-used,
  index-ne,
}

pub full_iff :
    {rb : Ring}
    → IsValid rb
    → ((rb.write_index + 1) % rb.capacity == rb.read_index) ≡ (used rb == rb.capacity - 1)
full_iff {rb} v =
    ground (arith, v, wrap (rb.write_index + 1) rb.capacity (omega (arith, v.write_in)))

abbrev pub advanced : Ring → List ℕ → Ring
advanced rb slot = record rb {
  slots = set rb.slots rb.write_index slot;
  write_index = (rb.write_index + 1) % rb.capacity;
}

pub used-advanced :
    {rb : Ring} (slot : List ℕ)
    → IsValid rb
    → (used rb == rb.capacity - 1) ≡ false
    → used (advanced rb slot) ≡ suc (used rb)
used-advanced {rb} slot v room =
    ground (arith, v, wrap (rb.write_index + 1) rb.capacity (omega (arith, v.write_in)))

pub contents-advanced :
    (host : Host) {rb : Ring} (slot : List ℕ)
    → IsValid rb
    → (used rb == rb.capacity - 1) ≡ false
    → contents host (advanced rb slot) ≡ contents host rb ++ (payload host slot ∷ [])
unfolding contents
contents-advanced host {rb} slot v room =
    let old = λ (i : ℕ). payload host (nth rb.slots (index rb i)) in
    let new = λ (i : ℕ). payload host (nth (set rb.slots rb.write_index slot) (index rb i)) in
    let inside : rb.write_index < length rb.slots = omega (arith, v.write_in, v.count) in
    let kept = tabulate-congr new old (used rb) (λ i h.
      ap (payload host) (nth-set_ne rb.slots rb.write_index (index rb i) slot (index-ne i v h))) in
    let last : new (used rb) ≡ payload host slot =
      rw (index-used v) (ap (payload host) (nth-set_self rb.slots rb.write_index slot inside)) in
    rw (used-advanced slot v room, tabulate-snoc new (used rb), kept, last)

pub contents_empty :
    (host : Host) {rb : Ring}
    → IsValid rb
    → (rb.read_index == rb.write_index) ≡ true
    → contents host rb ≡ []
unfolding contents tabulate
contents_empty host {rb} v e = let zero_used : used rb ≡ 0 = ground arith in rw zero_used

abbrev pub popped : Ring → Ring
popped rb = record rb { read_index = (rb.read_index + 1) % rb.capacity }

pub used-popped :
    {rb : Ring}
    → IsValid rb
    → (rb.read_index == rb.write_index) ≡ false
    → used rb ≡ suc (used (popped rb))
used-popped {rb} v e =
    ground (arith, v, wrap (rb.read_index + 1) rb.capacity (omega (arith, v.read_in)))

index-popped :
    {rb : Ring} (i : ℕ) → IsValid rb → suc i < rb.capacity → index (popped rb) i ≡ index rb (suc i)
index-popped {rb} i v h = ground (
  arith,
  v,
  wrap (rb.read_index + 1) rb.capacity (omega (arith, v.read_in)),
  wrap (rb.read_index + suc i) rb.capacity (omega (arith, v.read_in)),
  wrap ((rb.read_index + 1) % rb.capacity + i) rb.capacity (omega (arith, v.read_in)),
)

pub contents-popped :
    (host : Host) {rb : Ring}
    → IsValid rb
    → (rb.read_index == rb.write_index) ≡ false
    → contents host rb ≡ payload host (nth rb.slots rb.read_index) ∷ contents host (popped rb)
unfolding contents
contents-popped host {rb} v e =
    let old = λ (i : ℕ). payload host (nth rb.slots (index rb i)) in
    let new = λ (i : ℕ). payload host (nth rb.slots (index (popped rb) i)) in
    let n = used (popped rb) in
    let first : index rb 0 ≡ rb.read_index =
      ground (arith, v, wrap (rb.read_index + 0) rb.capacity (omega (arith, v.read_in))) in
    let same =
      tabulate-congr (λ i. old (suc i)) new n
        (λ i h.
          ap (λ (k : ℕ). payload host (nth rb.slots k))
            (sym (index-popped i v (omega (arith, h, used-lt v, used-popped v e))))) in
    rw (used-popped v e, tabulate-suc old n, same, first)
