-- ===== src/Ring.antt =====
-- src/export/ring_buffer.c: the queue of serialized spans between the program's threads and the
-- exporter thread. `data` is the list of its slots of 256 bytes, so that `data + w * entry_size` is
-- slot `w`. An atomic index is its value, and one call runs at a time.
pub mod Slots
pub mod Queue
pub mod Contents
pub mod Advance
pub mod Refine
pub mod Threads
use dapper_lite.Prelude.{
  ℕ, ◌+◌, ◌-◌, ◌%◌, Bool, Option, none, some, List, [], ltb, ◌==◌, if◌then◌else◌, get_elem?, set,
  take, drop, replicate, ◌++◌,
}
use dapper_lite.Prelude.Outcome.{Outcome, ok, failed, fault, ◌>>=◌, ◌>>◌, fail_if}
use dapper_lite.Memory.{write_bytes, read_bytes}
use dapper_lite.ByteOrder.{Host, object_bytes, object_value}
use dapper_lite.Core.{Span}
use dapper_lite.Wire.{span_serialize, span_wire_max_size}

abbrev pub entry_size : ℕ
entry_size = span_wire_max_size

abbrev pub slot_header_size : ℕ
slot_header_size = 4

abbrev pub max_payload_size : ℕ
max_payload_size = entry_size - slot_header_size

pub record Ring : Type 0 where
  pub slots : List (List ℕ)
  pub capacity : ℕ
  pub write_index : ℕ
  pub read_index : ℕ

-- The allocations succeed; `calloc` zeroes the slots.
unfoldable pub create : ℕ → Outcome Ring
create capacity = do
  fail_if (capacity == 0)
  ok (record {
    slots = replicate capacity (replicate entry_size 0);
    capacity = capacity;
    write_index = 0;
    read_index = 0;
  })

unfoldable pub is_empty : Ring → Bool
is_empty rb = rb.read_index == rb.write_index

unfoldable pub is_full : Ring → Bool
is_full rb = (rb.write_index + 1) % rb.capacity == rb.read_index

-- Slot `i`; past the last one lies foreign memory.
unfoldable pub slot_at : List (List ℕ) → ℕ → Outcome (List ℕ)
slot_at slots i = elim (get_elem? slots i) [ none ↦ fault | some s ↦ ok s ]

module _ (host : Host) where
  -- The payload behind the length prefix, then the prefix, in host order.
  unfoldable pub store_slot : List ℕ → Span → Bool → Outcome (List ℕ)
  store_slot slot span sampled = do
    (payload, len) ← span_serialize host (drop slot_header_size slot) max_payload_size span sampled
    write_bytes (take slot_header_size slot ++ payload) 0 (object_bytes host 4 len)

  unfoldable pub load_slot : List ℕ → Outcome (List ℕ)
  load_slot slot = do
    prefix ← read_bytes slot 0 slot_header_size
    let len = object_value host prefix
    let payload_len = if ltb max_payload_size len then max_payload_size else len
    read_bytes slot slot_header_size payload_len

  -- `failed` is the return value `false`, which leaves the indices as they are.
  unfoldable pub push : Ring → Span → Bool → Outcome Ring
  unfolding slot_at
  push rb span sampled = do
    fail_if ((rb.write_index + 1) % rb.capacity == rb.read_index)
    slot ← slot_at rb.slots rb.write_index
    slot ← store_slot slot span sampled
    ok (record rb {
      slots = set rb.slots rb.write_index slot;
      write_index = (rb.write_index + 1) % rb.capacity;
    })

  -- The bytes that are copied out, and the ring.
  unfoldable pub pop : Ring → Outcome (List ℕ × Ring)
  unfolding slot_at
  pop rb = do
    fail_if (rb.read_index == rb.write_index)
    slot ← slot_at rb.slots rb.read_index
    output ← load_slot slot
    ok (output, record rb { read_index = (rb.read_index + 1) % rb.capacity })
