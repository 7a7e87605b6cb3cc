-- ===== src/Ring/Refine.antt =====
-- A valid ring behaves as a bounded queue of the bytes that it holds.
use dapper_lite.Prelude.{
  ℕ, zero, suc, ◌+◌, ◌-◌, ◌<◌, ◌≡◌, ◌⊎◌, Bool-cases, inl, inr, true, false, refl, Bool, [], arith,
  ◌==◌, length, replicate, All, length-replicate, length-set,
}
use dapper_lite.Prelude.Outcome.{map_ok, Safe, ok, failed}
use dapper_lite.ByteOrder.{Host}
use dapper_lite.Core.{Span}
use dapper_lite.Wire.Layout.{IsSpan, span_bytes}
use dapper_lite.Ring.{Ring, create, push, pop, max_payload_size}
use dapper_lite.Ring.Slots.{load_slot_lem, store_slot_lem}
use dapper_lite.Ring.Queue.{put, get}
use dapper_lite.Ring.Contents.{
  IsValid, IsSlot, used, wrap, nth, contents, slot_at_lem, nth_sized, set_sized, length-contents,
}
use dapper_lite.Ring.Advance.{full_iff, contents-advanced, contents_empty, contents-popped}

module _ (host : Host) {rb : Ring} (v : IsValid rb) where
  -- What a call of `ring_buffer_push` does to the waiting entries is what `put` does to a queue
  -- of at most `capacity - 1` entries: it refuses exactly when that many wait, and else appends
  -- the layout of the span. The ring stays valid with the same capacity, and no access is out of
  -- bounds.
  pub push_refines :
      (span : Span) (sampled : Bool)
      → IsSpan span
      → (map_ok (contents host) (push host rb span sampled)
          ≡ put (rb.capacity - 1) (contents host rb) (span_bytes span sampled max_payload_size))
        × Safe (λ rb'. IsValid rb' × (rb'.capacity ≡ rb.capacity)) (push host rb span sampled)
  unfolding push put
  push_refines span sampled h =
      let inside : rb.write_index < length rb.slots = omega (arith, v.write_in, v.count) in
      let old = nth rb.slots rb.write_index in
      let s =
        store_slot_lem host old span sampled h (nth_sized rb.slots rb.write_index inside v.sized) in
      elim (Bool-cases (used rb == rb.capacity - 1)) [
        | inl full ↦ rw (length-contents host rb, full_iff v, full) (refl, tt)
        | inr room ↦
            rw
              (
                length-contents host rb,
                full_iff v,
                room,
                slot_at_lem rb.slots rb.write_index inside,
                s.1,
              )
              (
                rw (contents-advanced host s.0 v room, s.3),
                (
                  record {
                    write_in = ground (
                      arith,
                      v,
                      wrap (rb.write_index + 1) rb.capacity (omega (arith, v.write_in)),
                    );
                    read_in = v.read_in;
                    count = rw length-set v.count;
                    sized = set_sized rb.slots rb.write_index s.0 s.2 v.sized;
                  },
                  refl,
                ),
              )
      ]

  -- What a call of `ring_buffer_pop` does to the waiting entries is what `get` does to the queue:
  -- it refuses exactly when none waits, and else hands out the oldest one. The ring stays valid
  -- with the same capacity, and no access is out of bounds.
  pub pop_refines :
      (map_ok (λ r. (r.0, contents host r.1)) (pop host rb) ≡ get (contents host rb))
      × Safe (λ r. IsValid r.1 × (r.1.capacity ≡ rb.capacity)) (pop host rb)
  unfolding pop get
  pop_refines =
      let inside : rb.read_index < length rb.slots = omega (arith, v.read_in, v.count) in
      let slot = nth rb.slots rb.read_index in
      let l = load_slot_lem host slot (nth_sized rb.slots rb.read_index inside v.sized) in
      elim (Bool-cases (rb.read_index == rb.write_index)) [
        | inl empty ↦ rw (empty, contents_empty host v empty) (refl, tt)
        | inr some_wait ↦
            rw
              (
                some_wait,
                slot_at_lem rb.slots rb.read_index inside,
                l,
                contents-popped host v some_wait,
              )
              (
                refl,
                (
                  record {
                    write_in = v.write_in;
                    read_in =
                        ground (
                          arith,
                          v,
                          wrap (rb.read_index + 1) rb.capacity (omega (arith, v.read_in)),
                        );
                    count = v.count;
                    sized = v.sized;
                  },
                  refl,
                ),
              )
      ]

pub zeroed_sized : (n : ℕ) → All IsSlot (replicate n (replicate 256 0))
zeroed_sized zero = tt
zeroed_sized (suc n) = (length-replicate {A = ℕ} 256 0, zeroed_sized n)

-- `ring_buffer_create` refuses a capacity of 0, and gives an empty valid ring of any other.
pub create_lem :
    (host : Host) (capacity : ℕ)
    → ((capacity == 0) ≡ true) × (create capacity ≡ failed)
      ⊎ (rb : Ring) × (create capacity ≡ ok rb)
        × IsValid rb
        × (contents host rb ≡ [])
        × (rb.capacity ≡ capacity)
unfolding create
create_lem host zero = inl (refl, refl)
create_lem host (suc n) =
    let rb : Ring = record {
      slots = replicate (suc n) (replicate 256 0);
      capacity = suc n;
      write_index = 0;
      read_index = 0;
    } in
    let v : IsValid rb = record {
      write_in = omega arith;
      read_in = omega arith;
      count = length-replicate (suc n) (replicate 256 0);
      sized = zeroed_sized (suc n);
    } in
    let pos : (suc n == 0) ≡ false = ground arith in
    inr (rb, rw pos, v, contents_empty host v refl, refl)
