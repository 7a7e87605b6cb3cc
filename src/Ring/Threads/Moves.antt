-- ===== src/Ring/Threads/Moves.antt =====
-- What a store of one thread leaves to the other.
use dapper_lite.Prelude.{
  ℕ, suc, ◌+◌, ◌-◌, ◌%◌, ◌<◌, ◌≡◌, sym, ap, ◌∙◌, false, List, [], ◌∷◌, ◌++◌, arith, ◌==◌, length,
  set, length-set,
}
use dapper_lite.ByteOrder.{Host}
use dapper_lite.Ring.{Ring, entry_size}
use dapper_lite.Ring.Slots.{payload}
use dapper_lite.Ring.Queue.{tabulate-snoc, tabulate-congr}
use dapper_lite.Ring.Contents.{
  IsValid, used, wrap, index, nth, contents, set_sized, nth-set_ne, index-used, index-ne,
}
use dapper_lite.Ring.Advance.{used-advanced, popped, used-popped}

-- Room for one more, and something that waits.
abbrev pub HasRoom : Ring → Type 0
HasRoom rb = used rb + 1 < rb.capacity

abbrev pub HasSome : Ring → Type 0
HasSome rb = 0 < used rb

abbrev pub with_slot : Ring → List ℕ → Ring
with_slot rb slot = record rb { slots = set rb.slots rb.write_index slot }

abbrev pub advance_write : Ring → Ring
advance_write rb = record rb { write_index = (rb.write_index + 1) % rb.capacity }

room : (rb : Ring) → HasRoom rb → (used rb == rb.capacity - 1) ≡ false
room rb h = ground arith

module _ {rb : Ring} (v : IsValid rb) where
  pub with_slot-IsValid : (slot : List ℕ) → length slot ≡ entry_size → IsValid (with_slot rb slot)
  with_slot-IsValid slot h = record {
    write_in = v.write_in;
    read_in = v.read_in;
    count = rw length-set v.count;
    sized = set_sized rb.slots rb.write_index slot h v.sized;
  }

  -- The slot that is written is none of those that wait.
  pub contents-with_slot :
      (host : Host) (slot : List ℕ) → contents host (with_slot rb slot) ≡ contents host rb
  unfolding contents
  contents-with_slot host slot =
      tabulate-congr (λ i. payload host (nth (set rb.slots rb.write_index slot) (index rb i)))
        (λ i. payload host (nth rb.slots (index rb i))) (used rb)
        (λ i h.
          ap (payload host) (nth-set_ne rb.slots rb.write_index (index rb i) slot (index-ne i v h)))

  pub first_kept :
      (slot : List ℕ)
      → HasSome rb
      → nth (with_slot rb slot).slots rb.read_index ≡ nth rb.slots rb.read_index
  first_kept slot h =
      let first : index rb 0 ≡ rb.read_index =
        ground (arith, v, wrap (rb.read_index + 0) rb.capacity (omega (arith, v.read_in))) in
      nth-set_ne rb.slots rb.write_index rb.read_index slot (λ e. index-ne 0 v h (e ∙ sym first))

  pub advance_write-IsValid : IsValid (advance_write rb)
  advance_write-IsValid = record {
    write_in = ground (arith, v, wrap (rb.write_index + 1) rb.capacity (omega (arith, v.write_in)));
    read_in = v.read_in;
    count = v.count;
    sized = v.sized;
  }

  pub used-advance_write : HasRoom rb → used (advance_write rb) ≡ suc (used rb)
  used-advance_write h = used-advanced [] v (room rb h)

  pub contents-advance_write :
      (host : Host)
      → HasRoom rb
      → contents host (advance_write rb)
        ≡ contents host rb ++ (payload host (nth rb.slots rb.write_index) ∷ [])
  unfolding contents
  contents-advance_write host h =
      let entry = λ (i : ℕ). payload host (nth rb.slots (index rb i)) in
      rw (used-advance_write h, tabulate-snoc entry (used rb), index-used v)

  pub popped-IsValid : IsValid (popped rb)
  popped-IsValid = record {
    write_in = v.write_in;
    read_in = ground (arith, v, wrap (rb.read_index + 1) rb.capacity (omega (arith, v.read_in)));
    count = v.count;
    sized = v.sized;
  }

  pub not_empty : HasSome rb → (rb.read_index == rb.write_index) ≡ false
  not_empty h = ground (arith, v)

  pub HasRoom-popped : HasSome rb → HasRoom rb → HasRoom (popped rb)
  HasRoom-popped h r = omega (arith, r, used-popped v (not_empty h))
