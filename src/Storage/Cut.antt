-- ===== src/Storage/Cut.antt =====
-- The reader of src/analysis/query.c on a record that is cut short behind its number.
use dapper_lite.Prelude.{
  ℕ, zero, suc, ◌+◌, ◌-◌, ◌<◌, ◌≤◌, ◌≡◌, refl, ap, ◌∙◌, Bool, Bool-cases, inl, inr, none, List, [],
  ◌∷◌, ◌++◌, map, append-nil, arith, ltb, leb, length, take, All, length-append, length-take, false,
}
use dapper_lite.Prelude.Outcome.{ok, failed}
use dapper_lite.ByteOrder.{Host, be_bytes}
use dapper_lite.ByteOrder.Laws.{htonl-be_bytes, length-be_bytes}
use dapper_lite.Core.{Span}
use dapper_lite.Wire.Layout.{IsSpan, span_bytes}
use dapper_lite.Wire.Decode.{span_deserialize_lem}
use dapper_lite.Collector.{PartialTrace}
use dapper_lite.Storage.{
  read_corrupt, fread, read_spans, read_record, read_one_trace, query_load_all_status,
}
use dapper_lite.Storage.Log.{length_bounds, spans_bytes, record_bytes, IsStorable}
use dapper_lite.Storage.RoundTrip.{
  logged, log_bytes, length-log_bytes, fread-append, size_ok, count_ok,
}
use dapper_lite.Storage.Torn.{load_all-tail}

take_over :
    (xs ys : List ℕ) (k : ℕ) → length xs ≤ k → take k (xs ++ ys) ≡ xs ++ take (k - length xs) ys
take_over [] ys k h = let e : k ≡ k - 0 = omega arith in ap (λ n. take n ys) e
take_over (x ∷ xs) ys zero h = absurd (omega arith)
take_over (x ∷ xs) ys (suc k) h =
    let e : k - length xs ≡ suc k - suc (length xs) = omega arith in
    ap (λ t. x ∷ t) (take_over xs ys k (omega arith)) ∙ ap (λ n. x ∷ (xs ++ take n ys)) e

fread-short : (n k : ℕ) (a : List ℕ) → k < n → fread n (take k a) ≡ failed
unfolding fread
fread-short n k a h =
    let short : leb n (length (take k a)) ≡ false = ground (arith, length-take {A = ℕ} k a) in
    rw short

module _ (host : Host) where
  read_spans-cut :
      (sampled : Bool) (spans : List Span) (k : ℕ)
      → All IsSpan spans
      → k < length (spans_bytes sampled spans)
      → read_spans host (length spans) (take k (spans_bytes sampled spans)) ≡ failed
  unfolding read_spans spans_bytes
  read_spans-cut sampled [] k h l = absurd (omega arith)
  read_spans-cut sampled (s ∷ spans) k h l =
      let bytes = span_bytes s sampled 256 in
      let more = spans_bytes sampled spans in
      let w = length_bounds host s sampled h.0 in
      let len = length-be_bytes 4 (length bytes) in
      let d = rw append-nil at (
        span_deserialize_lem host s sampled 256 [] (length bytes) h.0 (omega arith)
          (omega arith)) in
      elim (Bool-cases (ltb k 4)) [
        | inl e ↦ rw (fread-short 4 k (be_bytes 4 (length bytes) ++ (bytes ++ more)) (ground arith))
        | inr e ↦
            let four : 4 ≤ k = ground arith in
            rw
              (
                take_over (be_bytes 4 (length bytes)) (bytes ++ more) k (omega (arith, len, four)),
                len,
                fread-append 4 (be_bytes 4 (length bytes)) (take (k - 4) (bytes ++ more)) len,
                htonl-be_bytes host (length bytes) (omega (arith, w.1)),
                size_ok (length bytes) w.0 w.1,
              )
              (elim (Bool-cases (ltb (k - 4) (length bytes))) [
                | inl f ↦ rw (fread-short (length bytes) (k - 4) (bytes ++ more) (ground arith))
                | inr f ↦
                    let past : length bytes ≤ k - 4 = ground arith in
                    rw (
                      take_over bytes more (k - 4) past,
                      fread-append (length bytes) bytes (take (k - 4 - length bytes) more) refl,
                      d,
                      read_spans-cut sampled spans (k - 4 - length bytes) h.1 (
                          omega (
                            arith,
                            past,
                            four,
                            l,
                            len,
                            length-append {A = ℕ} (be_bytes 4 (length bytes)) (bytes ++ more),
                            length-append {A = ℕ} bytes more,
                          )),
                    )
              ])
      ]

  read_one_trace-cut :
      (pt : PartialTrace) (k : ℕ)
      → IsStorable pt
      → 8 ≤ k
      → k < length (record_bytes pt)
      → read_one_trace host (take k (record_bytes pt)) ≡ ok (read_corrupt, none)
  unfolding read_one_trace read_record record_bytes
  read_one_trace-cut pt k s past cut =
      let n = length pt.spans in
      let body = spans_bytes pt.sampled pt.spans in
      let l8 = length-be_bytes 8 pt.trace_id in
      let l4 = length-be_bytes 4 n in
      rw
        (
          take_over (be_bytes 8 pt.trace_id) (be_bytes 4 n ++ body) k (omega (arith, l8, past)),
          l8,
          fread-append 8 (be_bytes 8 pt.trace_id) (take (k - 8) (be_bytes 4 n ++ body)) l8,
        )
        (elim (Bool-cases (ltb (k - 8) 4)) [
          | inl e ↦ rw (fread-short 4 (k - 8) (be_bytes 4 n ++ body) (ground arith))
          | inr e ↦
              let four : 4 ≤ k - 8 = ground arith in
              rw (
                take_over (be_bytes 4 n) body (k - 8) (omega (arith, l4, four)),
                l4,
                fread-append 4 (be_bytes 4 n) (take (k - 8 - 4) body) l4,
                htonl-be_bytes host n (omega (arith, s.few_spans)),
                count_ok n s.some_span s.few_spans,
                read_spans-cut pt.sampled pt.spans (k - 8 - 4) s.spans_ok (
                    omega (
                      arith,
                      past,
                      four,
                      cut,
                      l8,
                      l4,
                      length-append {A = ℕ} (be_bytes 8 pt.trace_id) (be_bytes 4 n ++ body),
                      length-append {A = ℕ} (be_bytes 4 n) body,
                    )),
              )
        ])

  -- A log of storable traces whose last record is cut short anywhere behind its first 8 bytes is
  -- read up to that record, and the reader reports the log as corrupt.
  pub query_load_all-cut :
      (pts : List PartialTrace) (pt : PartialTrace) (k : ℕ)
      → All IsStorable pts
      → IsStorable pt
      → 8 ≤ k
      → k < length (record_bytes pt)
      → query_load_all_status host (log_bytes pts ++ take k (record_bytes pt))
        ≡ ok (map logged pts, read_corrupt)
  unfolding query_load_all_status
  query_load_all-cut pts pt k h s past cut =
      let tail = take k (record_bytes pt) in
      load_all-tail host pts tail read_corrupt (length (log_bytes pts ++ tail) + 1) h
        (read_one_trace-cut pt k s past cut)
        (omega (arith, length-append {A = ℕ} (log_bytes pts) tail, length-log_bytes pts))
