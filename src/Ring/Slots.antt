-- ===== src/Ring/Slots.antt =====
-- A slot gives back the bytes that were stored in it.
use dapper_lite.Prelude.{
  ℕ, ◌+◌, ◌^◌, ◌≤◌, ◌<◌, ◌≡◌, refl, ap, Bool, List, [], ◌++◌, arith, ltb, if◌then◌else◌, length,
  take, drop, length-append, length-take, length-drop, ◌∙◌, drop_self,
}
use dapper_lite.Prelude.Outcome.{ok, failed, fault}
use dapper_lite.Memory.{read_bytes, read_bytes_lem, write_bytes-append, read_bytes-append}
use dapper_lite.ByteOrder.{
  Host, little, big, le_bytes, of_le, be_bytes, of_be, object_bytes, object_value,
}
use dapper_lite.Core.{Span}
use dapper_lite.Wire.Layout.{IsSpan, span_bytes}
use dapper_lite.Wire.Cursor.{not_beyond}
use dapper_lite.Wire.Encode.{span_serialize_lem}
use dapper_lite.Ring.{store_slot, load_slot, entry_size, max_payload_size}

object_value-object_bytes :
    (host : Host) (v : ℕ) → v < 2 ^ 32 → object_value host (object_bytes host 4 v) ≡ v
unfolding object_value object_bytes le_bytes be_bytes of_le of_be
object_value-object_bytes little v h = omega arith
object_value-object_bytes big v h = omega arith

length-object_bytes : (host : Host) (v : ℕ) → length (object_bytes host 4 v) ≡ 4
unfolding object_bytes le_bytes be_bytes
length-object_bytes little v = refl
length-object_bytes big v = refl

-- What a slot holds for the consumer.
unfoldable pub payload : Host → List ℕ → List ℕ
payload host slot = elim (load_slot host slot) [ ok bytes ↦ bytes | failed ↦ [] | fault ↦ [] ]

load_slot_clamped :
    (host : Host) (slot : List ℕ)
    → length slot ≡ entry_size
    → let len = object_value host (take 4 slot) in
      load_slot host slot ≡ ok (take (if ltb 252 len then 252 else len) (drop 4 slot))
unfolding load_slot
load_slot_clamped host slot h =
    let len = object_value host (take 4 slot) in
    let n = if ltb 252 len then 252 else len in
    let small : 4 + n ≤ length slot = ground arith in
    rw (read_bytes_lem slot 0 4 (omega arith), read_bytes_lem slot 4 n small)

-- The length is clamped, so that no slot makes the consumer read outside it.
pub load_slot_lem :
    (host : Host) (slot : List ℕ)
    → length slot ≡ entry_size
    → load_slot host slot ≡ ok (payload host slot)
unfolding payload
load_slot_lem host slot h = let e = load_slot_clamped host slot h in rw (e, payload)

pub payload_lem :
    (host : Host) (slot : List ℕ)
    → length slot ≡ entry_size
    → let len = object_value host (take 4 slot) in
      payload host slot ≡ take (if ltb 252 len then 252 else len) (drop 4 slot)
unfolding payload
payload_lem host slot h = rw (load_slot_clamped host slot h, payload) refl

load_slot-stored :
    (host : Host) (bytes rest : List ℕ)
    → length bytes ≤ max_payload_size
    → load_slot host (object_bytes host 4 (length bytes) ++ (bytes ++ rest)) ≡ ok bytes
unfolding load_slot
load_slot-stored host bytes rest h =
    let prefix = object_bytes host 4 (length bytes) in
    let out = prefix ++ (bytes ++ rest) in
    let four = length-object_bytes host (length bytes) in
    let r1 : read_bytes out 0 4 ≡ ok prefix =
      rw four at (read_bytes-append [] prefix (bytes ++ rest)) in
    let r2 : read_bytes out 4 (length bytes) ≡ ok bytes =
      rw four at (read_bytes-append prefix bytes rest) in
    rw (
      r1,
      object_value-object_bytes host (length bytes) (omega arith),
      not_beyond 252 (length bytes) h,
      r2,
    )

-- Storing a span in a slot, and what the slot then holds.
pub store_slot_lem :
    (host : Host) (slot : List ℕ) (span : Span) (sampled : Bool)
    → IsSpan span
    → length slot ≡ entry_size
    → (slot' : List ℕ) × (store_slot host slot span sampled ≡ ok slot')
      × (length slot' ≡ entry_size)
      × (payload host slot' ≡ span_bytes span sampled max_payload_size)
unfolding store_slot payload
store_slot_lem host slot span sampled h size =
    let bytes = span_bytes span sampled 252 in
    let body = drop 4 slot in
    let body_len = length-drop {A = ℕ} 4 slot in
    let s =
      span_serialize_lem host body 252 span sampled h (omega arith) (omega (arith, body_len)) in
    let prefix = object_bytes host 4 (length bytes) in
    let rest = drop (length bytes) body in
    let head = take 4 slot in
    let four = length-object_bytes host (length bytes) in
    let same : length prefix ≡ length head = omega (arith, four, length-take {A = ℕ} 4 slot) in
    let rest_len = length-drop {A = ℕ} (length bytes) body in
    let out = prefix ++ (bytes ++ rest) in
    let kept : drop (length prefix) (head ++ (bytes ++ rest)) ≡ bytes ++ rest =
      rw same (drop_self head (bytes ++ rest)) in
    (
      out,
      rw s.0 (
          write_bytes-append [] (head ++ (bytes ++ rest)) prefix
            (omega (arith, length-append {A = ℕ} head (bytes ++ rest)))
          ∙ ap (λ (z : List ℕ). ok (prefix ++ z)) kept),
      omega (
        arith,
        four,
        rest_len,
        body_len,
        s.1,
        length-append {A = ℕ} prefix (bytes ++ rest),
        length-append {A = ℕ} bytes rest,
      ),
      rw (load_slot-stored host bytes rest s.1, payload),
    )
