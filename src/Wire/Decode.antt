-- ===== src/Wire/Decode.antt =====
-- `span_deserialize` reads a layout back, whatever stands behind it in the buffer.
use dapper_lite.Prelude.{
  ℕ, zero, suc, ◌+◌, ◌-◌, ◌*◌, ◌<◌, ◌≤◌, ◌^◌, ◌≡◌, refl, sym, ap, ap₂, Bool, true, false, not, List,
  [], ◌∷◌, ◌++◌, arith, lt→leb, ◌==◌, if◌then◌else◌, length, take, replicate, All, map, length-take,
  min,
}
use native.Mathlib.Nat.{mod-eq_of_lt}
use dapper_lite.Prelude.Outcome.{Outcome, ok}
use dapper_lite.ByteOrder.{Host, be_bytes}
use dapper_lite.ByteOrder.Laws.{length-be_bytes}
use dapper_lite.Core.{Annotation, Span, zeroed_span, zeroed_annotation}
use dapper_lite.Core.Strings.{c_str, c_array, strlen-le-length, length-c_str}
use dapper_lite.Wire.{deserialize_annotations, span_deserialize}
use dapper_lite.Wire.Layout.{
  elapsed_us, name_room, string_bytes, annotations_bytes, header_bytes, fitting_in, span_bytes,
  IsAnnotation, IsSpan, length-string_bytes,
}
use dapper_lite.Wire.Cursor.{not_beyond}
use dapper_lite.Wire.Annotations.{fitting-le, length-annotations_bytes_step}
use dapper_lite.Wire.Encode.{
  length-span_bytes, length-header_bytes, name_room_bounds, elapsed_us-lt,
}
use dapper_lite.Wire.Reader.{
  Stands, part, behind, read_bytes-Stands, read_u64-Stands, read_u16-Stands, read_u8-Stands, copied,
  read_string_field-Stands,
}

-- The arrays that a receiver makes of the two strings.
unfoldable pub clean : Annotation → Annotation
clean a = record { key = c_array 64 (c_str a.key); value = c_array 192 (c_str a.value) }

ok_path :
    {A : Type 0} {a b : A} {i j k l : ℕ}
    → a ≡ b
    → i ≡ j
    → k ≡ l
    → ◌≡◌ {A = Outcome (A × ℕ × ℕ)} (ok (a, i, k)) (ok (b, j, l))
ok_path p q r = cc

deserialize_annotations-Stands :
    (host : Host) (n m : ℕ) (anns : List Annotation) {mem rest : List ℕ} (bufsize off : ℕ)
    → Stands mem (annotations_bytes n anns) rest off
    → All IsAnnotation anns
    → n ≤ length anns
    → n ≤ m
    → off + length (annotations_bytes n anns) ≤ bufsize
    → deserialize_annotations host n (replicate m zeroed_annotation) mem bufsize off
      ≡ ok (
        map clean (take n anns) ++ replicate (m - n) zeroed_annotation,
        n,
        off + length (annotations_bytes n anns),
      )
unfolding deserialize_annotations annotations_bytes clean
deserialize_annotations-Stands host zero m anns bufsize off st w l lm h =
    let e : m ≡ m - 0 = omega arith in
    let f : off ≡ off + 0 = omega arith in
    ap₂ (λ (k j : ℕ). ok (replicate k zeroed_annotation, 0, j)) e f
deserialize_annotations-Stands host (suc n) m [] bufsize off st w l lm h = absurd (omega arith)
deserialize_annotations-Stands host (suc n) zero (a ∷ anns) bufsize off st w l lm h =
    absurd (omega arith)
deserialize_annotations-Stands host (suc n) (suc m) (a ∷ anns) {mem} {rest} bufsize off st (wa, ws)
      l lm h =
    let k = string_bytes (c_str a.key) in
    let v = string_bytes (c_str a.value) in
    let more = annotations_bytes n anns in
    let total = length-annotations_bytes_step n a anns in
    let sv =
      behind (off + 2 + length (c_str a.key)) k (v ++ more) st
        (omega (arith, length-string_bytes (c_str a.key))) in
    let sm =
      behind (off + 2 + length (c_str a.key) + 2 + length (c_str a.value)) v more sv
        (omega (arith, length-string_bytes (c_str a.value))) in
    let left : m - n ≡ suc m - suc n = omega arith in
    let ks = length-c_str a.key in
    let vs = length-c_str a.value in
    rw
      (
        read_string_field-Stands host bufsize 64 (c_str a.key) (part k (v ++ more) st)
            (omega (arith, wa.0.short, length-c_str a.key)) (omega arith) (omega (arith, total)),
        read_string_field-Stands host bufsize 192 (c_str a.value) (part v more sv)
            (omega (arith, wa.1.short, length-c_str a.value)) (omega arith) (omega (arith, total)),
        deserialize_annotations-Stands host n m anns bufsize _ sm ws (omega arith) (omega arith)
            (omega (arith, total)),
      )
      (ok_path (ap (λ j. clean a ∷ (map clean (take n anns) ++ replicate j zeroed_annotation)) left)
        (omega arith) (omega (arith, total, ks, vs)))

-- What a receiver makes of the layout: the span as far as it was written, with its duration
-- rounded down to microseconds and counted from 0, and no pointers.
unfoldable pub received : Span → Bool → ℕ → Span
received span sampled bufsize =
    let n = fitting_in span bufsize in
    record zeroed_span {
      trace_id = span.trace_id;
      span_id = span.span_id;
      parent_span_id = span.parent_span_id;
      name = c_array 128 (take (name_room span bufsize) span.name);
      monotonic_end_ns = elapsed_us span * 1000;
      wall_start_us = span.wall_start_us;
      sampled = sampled;
      annotations = map clean (take n span.annotations) ++ replicate (16 - n) zeroed_annotation;
      annotation_count = n;
    }

elapsed_us_scaled : (span : Span) → span.monotonic_end_ns < 2 ^ 64 → elapsed_us span * 1000 < 2 ^ 64
unfolding elapsed_us
elapsed_us_scaled span h = ground arith

flag_back : (b : Bool) → not ((if b then 1 else 0) == 0) ≡ b
flag_back true = refl
flag_back false = refl

min_self : (n : ℕ) → n ≤ 16 → min n 16 ≡ n
min_self n h = omega arith

-- Reading a layout gives what `received` says, and consumes exactly the layout.
pub span_deserialize_lem :
    (host : Host) (span : Span) (sampled : Bool) (size : ℕ) (rest : List ℕ) (bufsize : ℕ)
    → IsSpan span
    → 48 ≤ size
    → length (span_bytes span sampled size) ≤ bufsize
    → span_deserialize host (span_bytes span sampled size ++ rest) bufsize
      ≡ ok (received span sampled size, sampled, length (span_bytes span sampled size))
unfolding span_deserialize span_bytes header_bytes received
span_deserialize_lem host span sampled size rest bufsize h low room =
    let len = name_room span size in
    let lens = name_room_bounds span size h.name_ok low in
    let n = fitting_in span size in
    let le = fitting-le span.annotation_count span.annotations size (48 + len) in
    let total = length-span_bytes span sampled size h low in
    let text = take len span.name in
    let text_len : length text ≡ len =
      omega (arith, length-take {A = ℕ} len span.name, strlen-le-length span.name) in
    let all : Stands (span_bytes span sampled size ++ rest) (span_bytes span sampled size) rest 0 =
      record { front = []; split = refl; at = refl } in
    let header = header_bytes span sampled len n in
    let h0 = part header (text ++ annotations_bytes n span.annotations) all in
    let h1 =
      behind 8 (be_bytes 8 span.trace_id) _ h0 (omega (arith, length-be_bytes 8 span.trace_id)) in
    let h2 =
      behind 16 (be_bytes 8 span.span_id) _ h1 (omega (arith, length-be_bytes 8 span.span_id)) in
    let h3 =
      behind 24 (be_bytes 8 span.parent_span_id) _ h2
        (omega (arith, length-be_bytes 8 span.parent_span_id)) in
    let h4 =
      behind 32 (be_bytes 8 span.wall_start_us) _ h3
        (omega (arith, length-be_bytes 8 span.wall_start_us)) in
    let h5 =
      behind 40 (be_bytes 8 (elapsed_us span)) _ h4
        (omega (arith, length-be_bytes 8 (elapsed_us span))) in
    let flag : ℕ = if sampled then 1 else 0 in
    let h6 = behind 41 (flag ∷ []) _ h5 refl in
    let h7 = behind 42 (0 ∷ []) _ h6 refl in
    let h8 = behind 44 (be_bytes 2 len) _ h7 (omega (arith, length-be_bytes 2 len)) in
    let body =
      behind 48 header (text ++ annotations_bytes n span.annotations) all
        (omega (arith, length-header_bytes span sampled len n)) in
    let slots =
      behind (48 + len) text (annotations_bytes n span.annotations) body
        (omega (arith, text_len)) in
    let small : n ≤ 16 = omega (arith, h.count_fits) in
    rw
      (
        not_beyond bufsize 48 (omega (arith, total)),
        read_u64-Stands host span.trace_id (part (be_bytes 8 span.trace_id) _ h0) h.trace_id_fits,
        read_u64-Stands host span.span_id (part (be_bytes 8 span.span_id) _ h1) h.span_id_fits,
        read_u64-Stands host span.parent_span_id (part (be_bytes 8 span.parent_span_id) _ h2)
            h.parent_fits,
        read_u64-Stands host span.wall_start_us (part (be_bytes 8 span.wall_start_us) _ h3)
            h.start_fits,
        read_u64-Stands host (elapsed_us span) (part (be_bytes 8 (elapsed_us span)) _ h4)
            (elapsed_us-lt span h.end_fits),
        read_u8-Stands flag (part (flag ∷ []) _ h5),
        read_u16-Stands host len (part (be_bytes 2 len) _ h7) (omega arith),
        read_u16-Stands host n (part (be_bytes 2 n) _ h8) (omega arith),
        not_beyond bufsize (48 + len) (omega (arith, total)),
        lt→leb 128 len lens.1,
        read_bytes-Stands len (part text (annotations_bytes n span.annotations) body) text_len,
        (copied 128 text len text_len lens.1).0,
        (copied 128 text len text_len lens.1).1,
        min_self n small,
        deserialize_annotations-Stands host n 16 span.annotations bufsize (48 + len) slots
            h.annotations_ok (omega (arith, h.slots)) small (omega (arith, total)),
        mod-eq_of_lt (elapsed_us_scaled span h.end_fits),
        flag_back sampled,
      )
      (ap (λ (k : ℕ). ok (received span sampled size, sampled, k)) (sym total))
