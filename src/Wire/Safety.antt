-- ===== src/Wire/Safety.antt =====
-- `span_deserialize` on any bytes at all.
use dapper_lite.Prelude.{
  ℕ, zero, suc, ◌+◌, ◌-◌, ◌<◌, ◌≤◌, ◌^◌, ◌≡◌, refl, ap, Bool, false, List, [], ◌∷◌, arith, ltb, leb,
  if◌then◌else◌, length, take, drop, replicate, length-replicate, length-take, length-drop, All,
  min,
}
use dapper_lite.Prelude.Outcome.{Safe, Safe-bind, Safe-fail_if}
use dapper_lite.Memory.{read_bytes, read_bytes_lem}
use dapper_lite.ByteOrder.{Host}
use dapper_lite.ByteOrder.Laws.{IsByte, ntoh64_bound}
use dapper_lite.Core.{Annotation, Span, zeroed_annotation}
use dapper_lite.Core.Strings.{c_array, IsString, c_array-IsString}
use dapper_lite.Wire.{
  read_u64, read_u16, read_u8, first_byte, read_string_field, deserialize_annotations,
  span_deserialize,
}
use dapper_lite.Wire.Layout.{IsAnnotation, IsSpan}
use dapper_lite.Wire.Reader.{copied}

All-take : (n : ℕ) (xs : List ℕ) → All IsByte xs → All IsByte (take n xs)
All-take zero xs h = tt
All-take (suc n) [] h = tt
All-take (suc n) (x ∷ xs) h = (h.0, All-take n xs h.1)

All-drop : (n : ℕ) (xs : List ℕ) → All IsByte xs → All IsByte (drop n xs)
All-drop zero xs h = h
All-drop (suc n) [] h = tt
All-drop (suc n) (x ∷ xs) h = All-drop n xs h.1

not_less : (a b : ℕ) → ltb a b ≡ false → b ≤ a
not_less a b h = ground arith

abbrev AreBytes : ℕ → List ℕ → Type 0
AreBytes n bs = (length bs ≡ n) × All IsByte bs

zeroed_ok : (m : ℕ) → All IsAnnotation (replicate m zeroed_annotation)
unfolding c_array
zeroed_ok zero = tt
zeroed_ok (suc m) =
    ((c_array-IsString 64 [] (omega arith), c_array-IsString 192 [] (omega arith)), zeroed_ok m)

abbrev Field : ℕ → ℕ → List ℕ × ℕ → Type 0
Field n bufsize r = IsString n r.0 × (r.1 ≤ bufsize)

abbrev Slots : ℕ → ℕ → ℕ → List Annotation × ℕ × ℕ → Type 0
Slots m rounds bufsize r =
    All IsAnnotation r.0 × (length r.0 ≡ m) × (r.1 ≤ rounds) × (r.2 ≤ bufsize)

module _ (host : Host) (mem : List ℕ) (bytes : All IsByte mem) where
  read_bytes-Safe : (off n : ℕ) → off + n ≤ length mem → Safe (AreBytes n) (read_bytes mem off n)
  read_bytes-Safe off n h = rw (read_bytes_lem mem off n h) (
    omega (arith, length-take {A = ℕ} n (drop off mem), length-drop {A = ℕ} off mem),
    All-take n (drop off mem) (All-drop off mem bytes),
  )

  read_u64-Safe : (off : ℕ) → off + 8 ≤ length mem → Safe (λ v. v < 2 ^ 64) (read_u64 host mem off)
  unfolding read_u64
  read_u64-Safe off h =
      Safe-bind (AreBytes 8) (λ v. v < 2 ^ 64) (read_bytes mem off 8) _ (read_bytes-Safe off 8 h)
        λ bs p. ntoh64_bound host bs p.0 p.1

  read_u16-Safe : (off : ℕ) → off + 2 ≤ length mem → Safe (λ v. Unit {0}) (read_u16 host mem off)
  unfolding read_u16
  read_u16-Safe off h =
      Safe-bind (AreBytes 2) (λ v. Unit {0}) (read_bytes mem off 2) _ (read_bytes-Safe off 2 h)
        λ bs p. tt

  read_u8-Safe : (off : ℕ) → off + 1 ≤ length mem → Safe (λ v. Unit {0}) (read_u8 mem off)
  unfolding read_u8
  read_u8-Safe off h =
      Safe-bind (AreBytes 1) (λ v. Unit {0}) (read_bytes mem off 1) _ (read_bytes-Safe off 1 h) one
    where
      one : (bs : List ℕ) → AreBytes 1 bs → Safe (λ v. Unit {0}) (first_byte bs)
      one [] p = absurd (omega (arith, p.0))
      one (b ∷ bs) p = tt

  read_string_field-Safe :
      (bufsize off n : ℕ)
      → bufsize ≤ length mem
      → 0 < n
      → Safe (Field n bufsize) (read_string_field host mem bufsize off (replicate n 0) n)
  unfolding read_string_field
  read_string_field-Safe bufsize off n h pos = Safe-fail_if _ (ltb bufsize (off + 2)) _ λ a.
      Safe-bind (λ v. Unit {0}) _ (read_u16 host mem off) _
        (read_u16-Safe off (omega (arith, not_less bufsize (off + 2) a)))
        λ len _. Safe-fail_if _ (ltb bufsize (off + 2 + len)) _ λ b.
          let copy = if leb n len then n - 1 else len in
          let fits : off + 2 + len ≤ bufsize = not_less bufsize (off + 2 + len) b in
          let small : (copy < n) × (copy ≤ len) = ground arith in
          Safe-bind (AreBytes copy) _ (read_bytes mem (off + 2) copy) _
            (read_bytes-Safe (off + 2) copy (omega arith))
            λ chars p.
              let c = copied n chars copy p.0 small.0 in
              rw (c.0, c.1) (c_array-IsString n chars (omega (arith, p.0)), fits)

  deserialize_annotations-Safe :
      (rounds m bufsize off : ℕ)
      → rounds ≤ m
      → bufsize ≤ length mem
      → off ≤ bufsize
      → Safe
          (Slots m rounds bufsize)
          (deserialize_annotations host rounds (replicate m zeroed_annotation) mem bufsize off)
  unfolding deserialize_annotations
  deserialize_annotations-Safe zero m bufsize off r h b =
      (zeroed_ok m, length-replicate m zeroed_annotation, omega arith, b)
  deserialize_annotations-Safe (suc rounds) zero bufsize off r h b = absurd (omega arith)
  deserialize_annotations-Safe (suc rounds) (suc m) bufsize off r h b =
      let P = Slots (suc m) (suc rounds) bufsize in
      Safe-bind (Field 64 bufsize) P _ _ (read_string_field-Safe bufsize off 64 h (omega arith))
        λ k pk.
          Safe-bind (Field 192 bufsize) P _ _
            (read_string_field-Safe bufsize k.1 192 h (omega arith))
            λ v pv.
              Safe-bind (Slots m rounds bufsize) P _ _
                (deserialize_annotations-Safe rounds m bufsize v.1 (omega arith) h pv.1)
                λ t pt. (((pk.0, pv.0), pt.0), ap suc pt.1, omega (arith, pt.2), pt.3)

-- Whatever bytes arrive, `span_deserialize` stays inside a buffer that holds `bufsize` bytes: it
-- reads and writes nothing outside an object. Where it succeeds, the span is well formed, with
-- every string terminated inside its array and at most 16 annotations, its sampling flag is the
-- decision that is returned, and no more than `bufsize` bytes are consumed.
pub span_deserialize-Safe :
    (host : Host) (mem : List ℕ) (bufsize : ℕ)
    → All IsByte mem
    → bufsize ≤ length mem
    → Safe
        (λ r. IsSpan r.0 × (r.0.sampled ≡ r.1) × (r.2 ≤ bufsize))
        (span_deserialize host mem bufsize)
unfolding span_deserialize
span_deserialize-Safe host mem bufsize bytes h =
    let P : Span × Bool × ℕ → Type 0 = λ r. IsSpan r.0 × (r.0.sampled ≡ r.1) × (r.2 ≤ bufsize) in
    let Word : ℕ → Type 0 = λ v. v < 2 ^ 64 in
    let Any : ℕ → Type 0 = λ v. Unit {0} in
    Safe-fail_if P (ltb bufsize 48) _ λ short.
      let low : 48 ≤ bufsize = not_less bufsize 48 short in
      Safe-bind Word P _ _ (read_u64-Safe host mem bytes 0 (omega arith)) λ trace_id p1.
        Safe-bind Word P _ _ (read_u64-Safe host mem bytes 8 (omega arith)) λ span_id p2.
          Safe-bind Word P _ _ (read_u64-Safe host mem bytes 16 (omega arith)) λ parent p3.
            Safe-bind Word P _ _ (read_u64-Safe host mem bytes 24 (omega arith)) λ start p4.
              Safe-bind Word P _ _ (read_u64-Safe host mem bytes 32 (omega arith)) λ duration p5.
                Safe-bind Any P _ _ (read_u8-Safe host mem bytes 40 (omega arith)) λ flag _.
                  Safe-bind Any P _ _ (read_u16-Safe host mem bytes 42 (omega arith)) λ name_len _.
                    Safe-bind Any P _ _ (read_u16-Safe host mem bytes 44 (omega arith)) λ num _.
                      Safe-fail_if P (ltb bufsize (48 + name_len)) _ λ b.
                        let copy = if leb 128 name_len then 127 else name_len in
                        let fits : 48 + name_len ≤ bufsize = not_less bufsize (48 + name_len) b in
                        let small : (copy < 128) × (copy ≤ name_len) = ground arith in
                        Safe-bind (AreBytes copy) P _ _
                          (read_bytes-Safe host mem bytes 48 copy (omega arith))
                          λ chars p.
                            let c = copied 128 chars copy p.0 small.0 in
                            rw (c.0, c.1)
                              (Safe-bind (Slots 16 (min num 16) bufsize) P _ _
                                (deserialize_annotations-Safe host mem bytes (min num 16) 16 bufsize
                                  (48 + name_len) (omega arith) h fits)
                                λ t pt. (
                                  record {
                                    trace_id_fits = p1;
                                    span_id_fits = p2;
                                    parent_fits = p3;
                                    start_fits = p4;
                                    end_fits = omega arith;
                                    name_ok = c_array-IsString 128 chars (omega (arith, p.0));
                                    annotations_ok = pt.0;
                                    slots = pt.1;
                                    count_fits = omega (arith, pt.2);
                                  },
                                  refl,
                                  pt.3,
                                ))
