-- ===== src/Wire/Encode.antt =====
-- `span_serialize` writes the layout, never outside its buffer.
use dapper_lite.Prelude.{
  ℕ, ◌+◌, ◌<◌, ◌≤◌, ◌^◌, ◌≡◌, refl, Bool, List, [], ◌++◌, arith, if◌then◌else◌, length, take, drop,
  length-append, append_assoc, length-drop, drop-drop, length-take,
}
use native.Mathlib.Nat.{mod-eq_of_lt, add_assoc}
use dapper_lite.Prelude.Outcome.{ok}
use dapper_lite.Memory.{read_bytes_lem}
use dapper_lite.ByteOrder.{Host}
use dapper_lite.ByteOrder.Laws.{length-be_bytes}
use dapper_lite.Core.{Span}
use dapper_lite.Core.Strings.{strlen, IsString, strlen-le-length, length-c_str}
use dapper_lite.Wire.{duration_us, serialize_name_len, serialize_header, span_serialize}
use dapper_lite.Wire.Layout.{
  elapsed_us, name_room, annotations_bytes, header_bytes, fitting_in, span_bytes, IsSpan,
}
use dapper_lite.Wire.Cursor.{
  Cursor, not_beyond, write_bytes-Writes, write_u64-Writes, write_u16-Writes, write_u8-Writes,
}
use dapper_lite.Wire.Annotations.{
  serialize_annotation_count_lem, serialize_annotations_lem, fitting-le, fitting_fits,
}

-- The duration that the code sends is the time that went by.
duration_us_lem : (span : Span) → duration_us span ≡ elapsed_us span
unfolding duration_us elapsed_us
duration_us_lem span = ground arith

pub elapsed_us-lt : (span : Span) → span.monotonic_end_ns < 2 ^ 64 → elapsed_us span < 2 ^ 64
unfolding elapsed_us
elapsed_us-lt span h = omega arith

-- The length of the name that the code sends is the room that there is for it.
serialize_name_len_lem :
    (span : Span) (bufsize : ℕ) → serialize_name_len span bufsize ≡ name_room span bufsize
unfolding serialize_name_len name_room
serialize_name_len_lem span bufsize = ground (arith, length-c_str span.name)

-- The ten writes of the header, one behind the other.
serialize_header_lem :
    (host : Host) (buffer : List ℕ) (bufsize : ℕ) (span : Span) (sampled : Bool) (name_len n : ℕ)
    → IsSpan span
    → 48 ≤ bufsize
    → bufsize ≤ length buffer
    → name_len < 2 ^ 16
    → n < 2 ^ 16
    → (serialize_header host buffer bufsize span sampled name_len n
        ≡ ok (header_bytes span sampled name_len n ++ drop 48 buffer))
unfolding serialize_header header_bytes
serialize_header_lem host buffer bufsize span sampled name_len n s h room hl hn =
    let start : Cursor [] buffer 0 bufsize = record { at = refl; room = omega arith } in
    let w1 =
      write_u64-Writes host _ _ 0 bufsize span.trace_id start (omega arith) s.trace_id_fits in
    let w2 = write_u64-Writes host _ _ 8 bufsize span.span_id w1.1 (omega arith) s.span_id_fits in
    let w3 =
      write_u64-Writes host _ _ 16 bufsize span.parent_span_id w2.1 (omega arith) s.parent_fits in
    let w4 =
      write_u64-Writes host _ _ 24 bufsize span.wall_start_us w3.1 (omega arith) s.start_fits in
    let w5 =
      write_u64-Writes host _ _ 32 bufsize (elapsed_us span) w4.1 (omega arith)
        (elapsed_us-lt span s.end_fits) in
    let w6 = write_u8-Writes _ _ 40 bufsize (if sampled then 1 else 0) w5.1 (omega arith) in
    let w7 = write_u8-Writes _ _ 41 bufsize 0 w6.1 (omega arith) in
    let w8 = write_u16-Writes host _ _ 42 bufsize name_len w7.1 (omega arith) hl in
    let w9 = write_u16-Writes host _ _ 44 bufsize n w8.1 (omega arith) hn in
    let w10 = write_u16-Writes host _ _ 46 bufsize 0 w9.1 (omega arith) (omega arith) in
    rw
      (
        duration_us_lem span,
        w1.0,
        w2.0,
        w3.0,
        w4.0,
        w5.0,
        w6.0,
        w7.0,
        mod-eq_of_lt hl,
        w8.0,
        mod-eq_of_lt hn,
        w9.0,
        w10.0,
      )
      (simp (drop-drop, append_assoc))

pub name_room_bounds :
    (span : Span) (bufsize : ℕ)
    → IsString 128 span.name
    → 48 ≤ bufsize
    → (name_room span bufsize ≤ strlen span.name)
      × (name_room span bufsize < 128)
      × (48 + name_room span bufsize ≤ bufsize)
unfolding name_room
name_room_bounds span bufsize h room = omega (arith, h.short, length-c_str span.name)

pub length-header_bytes :
    (span : Span) (sampled : Bool) (name_len n : ℕ)
    → length (header_bytes span sampled name_len n) ≡ 48
unfolding header_bytes
length-header_bytes span sampled name_len n = simp (length-append, length-be_bytes)

pub length-span_bytes :
    (span : Span) (sampled : Bool) (bufsize : ℕ)
    → IsSpan span
    → 48 ≤ bufsize
    → length (span_bytes span sampled bufsize)
      ≡ 48
        + name_room span bufsize
        + length (annotations_bytes (fitting_in span bufsize) span.annotations)
unfolding span_bytes
length-span_bytes span sampled bufsize h room =
    let len = name_room span bufsize in
    let n = fitting_in span bufsize in
    omega (
      arith,
      length-append {A = ℕ} (header_bytes span sampled len n)
          (take len span.name ++ annotations_bytes n span.annotations),
      length-append {A = ℕ} (take len span.name) (annotations_bytes n span.annotations),
      length-header_bytes span sampled len n,
      length-take {A = ℕ} len span.name,
      name_room_bounds span bufsize h.name_ok room,
      strlen-le-length span.name,
    )

-- A well-formed span is always serialized with a `bufsize` of 48 or more that is not above the size
-- of the buffer: the buffer then starts with the layout of the span, the rest of it is as it was,
-- and the length of the layout is returned, which is at most `bufsize`.
pub span_serialize_lem :
    (host : Host) (buffer : List ℕ) (bufsize : ℕ) (span : Span) (sampled : Bool)
    → IsSpan span
    → 48 ≤ bufsize
    → bufsize ≤ length buffer
    → let bytes = span_bytes span sampled bufsize in
      (span_serialize host buffer bufsize span sampled
        ≡ ok (bytes ++ drop (length bytes) buffer, length bytes))
      × (length bytes ≤ bufsize)
unfolding span_serialize
span_serialize_lem host buffer bufsize span sampled h low room =
    let len = name_room span bufsize in
    let n = fitting_in span bufsize in
    let lens = name_room_bounds span bufsize h.name_ok low in
    let le = fitting-le span.annotation_count span.annotations bufsize (48 + len) in
    let fits = fitting_fits span.annotation_count span.annotations bufsize (48 + len) lens.2 in
    let header = header_bytes span sampled len n in
    let head_len = length-header_bytes span sampled len n in
    let count =
      serialize_annotation_count_lem span.annotation_count span.annotations bufsize (48 + len)
        (omega (arith, h.slots, h.count_fits)) in
    let head =
      serialize_header_lem host buffer bufsize span sampled len n h low room (omega arith)
        (omega (arith, h.count_fits)) in
    let c0 : Cursor header (drop 48 buffer) 48 bufsize = record {
      at = head_len;
      room = omega (arith, length-drop {A = ℕ} 48 buffer);
    } in
    let name =
      write_bytes-Writes header (drop 48 buffer) (take len span.name) len 48 bufsize c0
        (omega (arith, length-take {A = ℕ} len span.name, strlen-le-length span.name)) lens.2 in
    let anns =
      serialize_annotations_lem host n span.annotations _ _ bufsize (48 + len) name.1
        h.annotations_ok (omega (arith, h.slots, h.count_fits)) fits in
    (
      rw
          (
            not_beyond bufsize 48 low,
            serialize_name_len_lem span bufsize,
            count,
            head,
            read_bytes_lem span.name 0 len (omega (arith, strlen-le-length span.name)),
            name.0,
            anns,
            length-span_bytes span sampled bufsize h low,
          )
          (unfold span_bytes in simp (drop-drop, append_assoc, add_assoc)),
      omega (arith, length-span_bytes span sampled bufsize h low),
    )
