-- ===== src/Storage/Log.antt =====
-- The log's format as a list of bytes, and that the writer writes it.
use dapper_lite.Prelude.{
  ℕ, ◌^◌, ◌≤◌, ◌<◌, ◌≡◌, refl, ap, Bool, false, List, [], ◌∷◌, ◌++◌, arith, ◌==◌, length, take,
  drop, replicate, All,
}
use dapper_lite.Prelude.Outcome.{ok}
use dapper_lite.Memory.{read_bytes-append}
use dapper_lite.ByteOrder.{Host, be_bytes}
use dapper_lite.ByteOrder.Laws.{object_bytes-htonl, object_bytes-hton64}
use dapper_lite.Core.{Span}
use dapper_lite.Wire.Layout.{IsSpan, span_bytes}
use dapper_lite.Wire.Encode.{span_serialize_lem, length-span_bytes}
use dapper_lite.Collector.{PartialTrace}
use dapper_lite.Storage.{stage_spans, storage_write_trace}

unfoldable pub spans_bytes : Bool → List Span → List ℕ
spans_bytes sampled [] = []
spans_bytes sampled (s ∷ spans) =
    let bytes = span_bytes s sampled 256 in
    be_bytes 4 (length bytes) ++ (bytes ++ spans_bytes sampled spans)

unfoldable pub record_bytes : PartialTrace → List ℕ
record_bytes pt =
    be_bytes 8 pt.trace_id ++ (be_bytes 4 (length pt.spans) ++ spans_bytes pt.sampled pt.spans)

-- What the collector stores: a numbered trace of well-formed spans, few enough for the reader.
pub record IsStorable (pt : PartialTrace) : Type 0 where
  pub id_fits : pt.trace_id < 2 ^ 64
  pub some_span : 0 < length pt.spans
  pub few_spans : length pt.spans ≤ 2 ^ 20
  pub spans_ok : All IsSpan pt.spans

-- The length of a layout for the log.
pub length_bounds :
    (host : Host) (s : Span) (sampled : Bool)
    → IsSpan s
    → (48 ≤ length (span_bytes s sampled 256)) × (length (span_bytes s sampled 256) ≤ 256)
length_bounds host s sampled h =
    let w = span_serialize_lem host (replicate 256 0) 256 s sampled h (omega arith) (omega arith) in
    (omega (arith, length-span_bytes s sampled 256 h (omega arith)), w.1)

stage_spans_lem :
    (host : Host) (scratch : List ℕ) (sampled : Bool) (spans : List Span)
    → 256 ≤ length scratch
    → All IsSpan spans
    → stage_spans host scratch sampled spans ≡ ok (spans_bytes sampled spans, length spans)
unfolding stage_spans spans_bytes
stage_spans_lem host scratch sampled [] h ok_spans = refl
stage_spans_lem host scratch sampled (s ∷ spans) h ok_spans =
    let bytes = span_bytes s sampled 256 in
    let w = span_serialize_lem host scratch 256 s sampled ok_spans.0 (omega arith) h in
    rw
      (
        w.0,
        read_bytes-append [] bytes (drop (length bytes) scratch),
        stage_spans_lem host scratch sampled spans h ok_spans.1,
        object_bytes-htonl host (length bytes) (omega (arith, w.1)),
      )
      (ap (λ (n : ℕ). ok (spans_bytes sampled (s ∷ spans), n)) (omega arith))

-- A storable trace is written as one record at the end of the log, as far as `fwrite` gets, and the
-- call succeeds exactly when it gets to the end.
pub storage_write_trace_lem :
    (host : Host) (scratch : List ℕ) (written : ℕ → ℕ) (log : List ℕ) (pt : PartialTrace)
    → 256 ≤ length scratch
    → IsStorable pt
    → let bytes = record_bytes pt in
      let n = written (length bytes) in
      storage_write_trace host scratch written log pt ≡ ok (log ++ take n bytes, n == length bytes)
unfolding storage_write_trace record_bytes
storage_write_trace_lem host scratch written log pt h s =
    let some_written : (length pt.spans == 0) ≡ false = ground (arith, s.some_span) in
    rw (
      stage_spans_lem host scratch pt.sampled pt.spans h s.spans_ok,
      object_bytes-hton64 host pt.trace_id s.id_fits,
      object_bytes-htonl host (length pt.spans) (omega (arith, s.few_spans)),
      some_written,
    )
