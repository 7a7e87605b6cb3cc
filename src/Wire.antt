-- ===== src/Wire.antt =====
-- src/wire/serialize.c: the span wire format.
-- A buffer is the list of the bytes of the object behind it, `bufsize` the size that the caller
-- passes. Pointers that the code tests for NULL are values here. Offsets stay near the buffer
-- sizes, far below 2 ^ 64, and are plain numbers.
pub mod Layout
pub mod Cursor
pub mod Annotations
pub mod Encode
pub mod Reader
pub mod Decode
pub mod RoundTrip
pub mod Safety
use dapper_lite.Prelude.{
  ℕ, zero, suc, ◌+◌, ◌-◌, ◌*◌, ◌/◌, ◌%◌, ◌^◌, min, Bool, not, List, [], ◌∷◌, ltb, leb, ◌==◌,
  if◌then◌else◌,
}
use dapper_lite.Prelude.Outcome.{Outcome, ok, failed, fault, ◌>>=◌, ◌>>◌, fail_if}
use dapper_lite.Memory.{write_bytes, read_bytes}
use dapper_lite.ByteOrder.{Host, object_bytes, object_value, htons, dapper_hton64, dapper_ntoh64}
use dapper_lite.Core.{
  Annotation, Span, zeroed_span, span_name_max_length, max_annotations, annotation_key_max_length,
  annotation_value_max_length,
}
use dapper_lite.Core.Strings.{strlen}

abbrev pub span_wire_header_size : ℕ
span_wire_header_size = 48

abbrev pub span_wire_max_size : ℕ
span_wire_max_size = 256

unfoldable pub serialize_name_len : Span → ℕ → ℕ
serialize_name_len span bufsize =
    let limit = span_name_max_length - 1 in
    let len = strlen span.name in
    let clamped = if ltb limit len then limit else len in
    if ltb bufsize (span_wire_header_size + clamped)
    then bufsize - span_wire_header_size
    else clamped

abbrev pub ann_size : Annotation → ℕ
ann_size a = 2 + strlen a.key + 2 + strlen a.value

-- The rounds of the loop from slot `i` on: `annotation_count - i` are left, and `slots` starts at
-- slot `i`. The result is how often `n++` is still reached.
unfoldable pub serialize_annotation_count : ℕ → List Annotation → ℕ → ℕ → Outcome ℕ
serialize_annotation_count zero slots bufsize pos = ok 0
serialize_annotation_count (suc rounds) [] bufsize pos = fault
serialize_annotation_count (suc rounds) (a ∷ slots) bufsize pos =
    let rest = serialize_annotation_count rounds slots bufsize (pos + ann_size a) in
    if ltb bufsize (pos + ann_size a) then ok 0 else (rest >>= λ n. ok (suc n))

unfoldable pub duration_us : Span → ℕ
duration_us span =
    if ltb span.monotonic_start_ns span.monotonic_end_ns
    then (span.monotonic_end_ns - span.monotonic_start_ns) / 1000
    else 0

module _ (host : Host) where
  unfoldable pub write_u64 : List ℕ → ℕ → ℕ → ℕ → Outcome (List ℕ)
  write_u64 buf off bufsize val = do
    fail_if (ltb bufsize (off + 8))
    write_bytes buf off (object_bytes host 8 (dapper_hton64 host val))

  unfoldable pub write_u16 : List ℕ → ℕ → ℕ → ℕ → Outcome (List ℕ)
  write_u16 buf off bufsize val = do
    fail_if (ltb bufsize (off + 2))
    write_bytes buf off (object_bytes host 2 (htons host val))

  unfoldable pub read_u64 : List ℕ → ℕ → Outcome ℕ
  read_u64 buf off = do net ← read_bytes buf off 8; ok (dapper_ntoh64 host (object_value host net))

  unfoldable pub read_u16 : List ℕ → ℕ → Outcome ℕ
  read_u16 buf off = do net ← read_bytes buf off 2; ok (htons host (object_value host net))

unfoldable pub write_u8 : List ℕ → ℕ → ℕ → ℕ → Outcome (List ℕ)
write_u8 buf off bufsize val = do fail_if (ltb bufsize (off + 1)); write_bytes buf off (val ∷ [])

abbrev pub first_byte : List ℕ → Outcome ℕ
first_byte [] = fault
first_byte (b ∷ bs) = ok b

unfoldable pub read_u8 : List ℕ → ℕ → Outcome ℕ
read_u8 buf off = do bytes ← read_bytes buf off 1; first_byte bytes

module _ (host : Host) where
  unfoldable pub serialize_header : List ℕ → ℕ → Span → Bool → ℕ → ℕ → Outcome (List ℕ)
  serialize_header buffer bufsize span sampled name_len num_annotations = do
    b ← write_u64 host buffer 0 bufsize span.trace_id
    b ← write_u64 host b 8 bufsize span.span_id
    b ← write_u64 host b 16 bufsize span.parent_span_id
    b ← write_u64 host b 24 bufsize span.wall_start_us
    b ← write_u64 host b 32 bufsize (duration_us span)
    b ← write_u8 b 40 bufsize (if sampled then 1 else 0)
    b ← write_u8 b 41 bufsize 0
    b ← write_u16 host b 42 bufsize (name_len % 2 ^ 16)
    b ← write_u16 host b 44 bufsize (num_annotations % 2 ^ 16)
    write_u16 host b 46 bufsize 0

  -- One length-prefixed string, and the offset behind it.
  unfoldable pub serialize_string : List ℕ → ℕ → ℕ → List ℕ → Outcome (List ℕ × ℕ)
  serialize_string buffer bufsize offset text = do
    b ← write_u16 host buffer offset bufsize (strlen text % 2 ^ 16)
    chars ← read_bytes text 0 (strlen text)
    b ← write_bytes b (offset + 2) chars
    ok (b, offset + 2 + strlen text)

  -- `slots` starts at the slot of the next round, as above.
  unfoldable pub serialize_annotations : ℕ → List Annotation → List ℕ → ℕ → ℕ → Outcome (List ℕ × ℕ)
  serialize_annotations zero slots buffer bufsize offset = ok (buffer, offset)
  serialize_annotations (suc rounds) [] buffer bufsize offset = fault
  serialize_annotations (suc rounds) (a ∷ slots) buffer bufsize offset = do
    (b, off) ← serialize_string buffer bufsize offset a.key
    (b, off) ← serialize_string b bufsize off a.value
    serialize_annotations rounds slots b bufsize off

  -- The buffer afterwards, and the number of bytes that the C function returns.
  unfoldable pub span_serialize : List ℕ → ℕ → Span → Bool → Outcome (List ℕ × ℕ)
  span_serialize buffer bufsize span sampled = do
    fail_if (ltb bufsize span_wire_header_size)
    let name_len = serialize_name_len span bufsize
    num_annotations ←
        serialize_annotation_count span.annotation_count span.annotations bufsize
          (span_wire_header_size + name_len)
    b ← serialize_header buffer bufsize span sampled name_len num_annotations
    chars ← read_bytes span.name 0 name_len
    b ← write_bytes b span_wire_header_size chars
    serialize_annotations num_annotations span.annotations b bufsize
        (span_wire_header_size + name_len)

  -- The string that is read into `dest`, and the offset behind the field.
  unfoldable pub read_string_field : List ℕ → ℕ → ℕ → List ℕ → ℕ → Outcome (List ℕ × ℕ)
  read_string_field buffer bufsize offset dest dest_size = do
    fail_if (ltb bufsize (offset + 2))
    len ← read_u16 host buffer offset
    fail_if (ltb bufsize (offset + 2 + len))
    let copy = if leb dest_size len then dest_size - 1 else len
    chars ← read_bytes buffer (offset + 2) copy
    d ← write_bytes dest 0 chars
    d ← write_bytes d copy (0 ∷ [])
    ok (d, offset + 2 + len)

  -- `slots` starts at slot `i`; the results are the slots after the loop, how often
  -- `annotation_count++` ran, and the offset.
  unfoldable pub deserialize_annotations :
      ℕ → List Annotation → List ℕ → ℕ → ℕ → Outcome (List Annotation × ℕ × ℕ)
  deserialize_annotations zero slots buffer bufsize offset = ok (slots, 0, offset)
  deserialize_annotations (suc rounds) [] buffer bufsize offset = fault
  deserialize_annotations (suc rounds) (a ∷ slots) buffer bufsize offset = do
    (k, off) ← read_string_field buffer bufsize offset a.key annotation_key_max_length
    (v, off) ← read_string_field buffer bufsize off a.value annotation_value_max_length
    (rest, count, off) ← deserialize_annotations rounds slots buffer bufsize off
    ok (record { key = k; value = v } ∷ rest, count + 1, off)

  -- The span, the sampling decision, and the number of bytes that the C function returns.
  unfoldable pub span_deserialize : List ℕ → ℕ → Outcome (Span × Bool × ℕ)
  span_deserialize buffer bufsize = do
    fail_if (ltb bufsize span_wire_header_size)
    trace_id ← read_u64 host buffer 0
    span_id ← read_u64 host buffer 8
    parent_span_id ← read_u64 host buffer 16
    start_ts ← read_u64 host buffer 24
    duration ← read_u64 host buffer 32
    flag ← read_u8 buffer 40
    let sampled = not (flag == 0)
    name_len ← read_u16 host buffer 42
    num_annotations ← read_u16 host buffer 44
    fail_if (ltb bufsize (span_wire_header_size + name_len))
    let copy_len = if leb span_name_max_length name_len then span_name_max_length - 1 else name_len
    chars ← read_bytes buffer span_wire_header_size copy_len
    name ← write_bytes zeroed_span.name 0 chars
    name ← write_bytes name copy_len (0 ∷ [])
    (slots, count, offset) ←
        deserialize_annotations (min num_annotations max_annotations) zeroed_span.annotations buffer
          bufsize (span_wire_header_size + name_len)
    let span = record zeroed_span {
      trace_id = trace_id;
      span_id = span_id;
      parent_span_id = parent_span_id;
      name = name;
      monotonic_start_ns = 0;
      monotonic_end_ns = duration * 1000 % 2 ^ 64;
      wall_start_us = start_ts;
      sampled = sampled;
      annotations = slots;
      annotation_count = count;
    }
    ok (span, sampled, offset)
