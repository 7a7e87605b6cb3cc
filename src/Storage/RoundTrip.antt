-- ===== src/Storage/RoundTrip.antt =====
-- Reading back a log that the collector wrote.
use dapper_lite.Prelude.{
  ℕ, zero, suc, ◌+◌, ◌^◌, ◌≤◌, ◌<◌, ◌≡◌, refl, ap, Bool, false, ◌||◌, none, some, List, [], ◌∷◌,
  ◌++◌, arith, ltb, ◌==◌, length, take, map, length-append, append_assoc, append-nil, All,
  take_self, drop_self, le→leb,
}
use dapper_lite.Prelude.Outcome.{Outcome, ok, ◌>>=◌}
use dapper_lite.ByteOrder.{Host, be_bytes}
use dapper_lite.ByteOrder.Laws.{htonl-be_bytes, ntoh64-be_bytes, length-be_bytes}
use dapper_lite.Core.{Span}
use dapper_lite.Wire.Layout.{IsSpan, span_bytes}
use dapper_lite.Wire.Decode.{received, span_deserialize_lem}
use dapper_lite.Collector.{PartialTrace}
use dapper_lite.Storage.{
  read_ok, read_eof, LoggedTrace, storage_write_trace, fread, read_spans, read_record,
  read_one_trace, load_all, query_load_all_status, first_sampled, spans_of,
}
use dapper_lite.Storage.Log.{
  length_bounds, storage_write_trace_lem, spans_bytes, record_bytes, IsStorable,
}

pub fread-append : (n : ℕ) (a b : List ℕ) → length a ≡ n → fread n (a ++ b) ≡ ok (a, b)
unfolding fread
fread-append n a b e = rw (
  ← e,
  le→leb (length a) (length (a ++ b)) (omega (arith, length-append {A = ℕ} a b)),
  take_self a b,
  drop_self a b,
)

-- A trace as it comes back: each span as a receiver of its layout has it.
unfoldable pub logged : PartialTrace → LoggedTrace
logged pt = record {
  id = pt.trace_id;
  sampled = pt.sampled;
  spans = map (λ s. received s pt.sampled 256) pt.spans;
}

abbrev tagged : Bool → List Span → List (Span × Bool)
tagged sampled [] = []
tagged sampled (s ∷ spans) = (received s sampled 256, sampled) ∷ tagged sampled spans

spans_of-tagged :
    (sampled : Bool) (spans : List Span)
    → spans_of (tagged sampled spans) ≡ map (λ s. received s sampled 256) spans
spans_of-tagged sampled [] = refl
spans_of-tagged sampled (s ∷ spans) =
    ap (λ r. received s sampled 256 ∷ r) (spans_of-tagged sampled spans)

first_sampled-tagged :
    (sampled : Bool) (spans : List Span)
    → 0 < length spans
    → first_sampled (tagged sampled spans) ≡ sampled
first_sampled-tagged sampled [] h = absurd (omega arith)
first_sampled-tagged sampled (s ∷ spans) h = refl

pub take_whole : (xs : List ℕ) → take (length xs) xs ≡ xs
take_whole [] = refl
take_whole (x ∷ xs) = ap (λ t. x ∷ t) (take_whole xs)

pub size_ok : (n : ℕ) → 48 ≤ n → n ≤ 256 → (n == 0 || ltb 256 n) ≡ false
size_ok n h k = ground arith

pub count_ok : (n : ℕ) → 0 < n → n ≤ 2 ^ 20 → (n == 0 || ltb (2 ^ 20) n) ≡ false
count_ok n h k = ground arith

-- The log after the records of these traces.
unfoldable pub log_bytes : List PartialTrace → List ℕ
log_bytes [] = []
log_bytes (pt ∷ pts) = record_bytes pt ++ log_bytes pts

pub length-log_bytes : (pts : List PartialTrace) → length pts ≤ length (log_bytes pts)
unfolding log_bytes record_bytes
length-log_bytes [] = omega arith
length-log_bytes (pt ∷ pts) =
    let body = be_bytes 4 (length pt.spans) ++ spans_bytes pt.sampled pt.spans in
    omega (
      arith,
      length-append {A = ℕ} (be_bytes 8 pt.trace_id ++ body) (log_bytes pts),
      length-append {A = ℕ} (be_bytes 8 pt.trace_id) body,
      length-be_bytes 8 pt.trace_id,
      length-log_bytes pts,
    )

module _ (host : Host) where
  read_spans-spans_bytes :
      (sampled : Bool) (spans : List Span) (rest : List ℕ)
      → All IsSpan spans
      → read_spans host (length spans) (spans_bytes sampled spans ++ rest)
        ≡ ok (tagged sampled spans, rest)
  unfolding read_spans spans_bytes
  read_spans-spans_bytes sampled [] rest h = refl
  read_spans-spans_bytes sampled (s ∷ spans) rest h =
      let bytes = span_bytes s sampled 256 in
      let more = spans_bytes sampled spans in
      let w = length_bounds host s sampled h.0 in
      let d = rw append-nil at (
        span_deserialize_lem host s sampled 256 [] (length bytes) h.0 (omega arith)
          (omega arith)) in
      rw (
        append_assoc (be_bytes 4 (length bytes)) (bytes ++ more) rest,
        fread-append 4 (be_bytes 4 (length bytes)) ((bytes ++ more) ++ rest)
            (length-be_bytes 4 (length bytes)),
        htonl-be_bytes host (length bytes) (omega (arith, w.1)),
        size_ok (length bytes) w.0 w.1,
        append_assoc bytes more rest,
        fread-append (length bytes) bytes (more ++ rest) refl,
        d,
        read_spans-spans_bytes sampled spans rest h.1,
      )

  pub read_one_trace-record_bytes :
      (pt : PartialTrace) (rest : List ℕ)
      → IsStorable pt
      → read_one_trace host (record_bytes pt ++ rest) ≡ ok (read_ok, some (logged pt, rest))
  unfolding read_one_trace read_record record_bytes logged
  read_one_trace-record_bytes pt rest s =
      let n = length pt.spans in
      let body = spans_bytes pt.sampled pt.spans in
      rw (
        append_assoc (be_bytes 8 pt.trace_id) (be_bytes 4 n ++ body) rest,
        fread-append 8 (be_bytes 8 pt.trace_id) ((be_bytes 4 n ++ body) ++ rest)
            (length-be_bytes 8 pt.trace_id),
        ntoh64-be_bytes host pt.trace_id s.id_fits,
        append_assoc (be_bytes 4 n) body rest,
        fread-append 4 (be_bytes 4 n) (body ++ rest) (length-be_bytes 4 n),
        htonl-be_bytes host n (omega (arith, s.few_spans)),
        count_ok n s.some_span s.few_spans,
        read_spans-spans_bytes pt.sampled pt.spans rest s.spans_ok,
        spans_of-tagged,
        first_sampled-tagged pt.sampled pt.spans s.some_span,
      )

  read_one_trace-nil : read_one_trace host [] ≡ ok (read_eof, none)
  unfolding read_one_trace
  read_one_trace-nil = refl

  load_all-log_bytes :
      (pts : List PartialTrace) (fuel : ℕ)
      → All IsStorable pts
      → length pts < fuel
      → load_all host fuel (log_bytes pts) ≡ ok (map logged pts, read_eof)
  unfolding load_all log_bytes
  load_all-log_bytes pts zero h f = absurd (omega arith)
  load_all-log_bytes [] (suc fuel) h f = rw read_one_trace-nil
  load_all-log_bytes (pt ∷ pts) (suc fuel) h f = rw (
    read_one_trace-record_bytes pt (log_bytes pts) h.0,
    load_all-log_bytes pts fuel h.1 (omega arith),
  )

  pub query_load_all-log_bytes :
      (pts : List PartialTrace)
      → All IsStorable pts
      → query_load_all_status host (log_bytes pts) ≡ ok (map logged pts, read_eof)
  unfolding query_load_all_status
  query_load_all-log_bytes pts h =
      load_all-log_bytes pts (length (log_bytes pts) + 1) h (omega (arith, length-log_bytes pts))

  -- The calls of `storage_write_trace` for some traces, none of which `fwrite` cuts short.
  unfoldable pub write_all : List ℕ → List ℕ → List PartialTrace → Outcome (List ℕ)
  write_all scratch log [] = ok log
  write_all scratch log (pt ∷ pts) =
      storage_write_trace host scratch (λ n. n) log pt >>= λ r. write_all scratch r.0 pts

  write_all_lem :
      (scratch log : List ℕ) (pts : List PartialTrace)
      → 256 ≤ length scratch
      → All IsStorable pts
      → write_all scratch log pts ≡ ok (log ++ log_bytes pts)
  unfolding write_all log_bytes
  write_all_lem scratch log [] h s = rw append-nil
  write_all_lem scratch log (pt ∷ pts) h s = rw (
    storage_write_trace_lem host scratch (λ n. n) log pt h s.0,
    take_whole (record_bytes pt),
    write_all_lem scratch (log ++ record_bytes pt) pts h s.1,
    append_assoc log (record_bytes pt) (log_bytes pts),
  )

  -- Traces that are written one behind the other to an empty log are read back from it: as many
  -- traces, in the order in which they were written, each with its number, its sampling decision
  -- and its spans in their order, each span as `received` describes it for a layout of at most 256
  -- bytes. The reader ends with a clean end of file.
  pub query_load_all-write_all :
      (scratch : List ℕ) (pts : List PartialTrace)
      → 256 ≤ length scratch
      → All IsStorable pts
      → (log : List ℕ) × (write_all scratch [] pts ≡ ok log)
        × (query_load_all_status host log ≡ ok (map logged pts, read_eof))
  query_load_all-write_all scratch pts h s =
      (log_bytes pts, write_all_lem scratch [] pts h s, query_load_all-log_bytes pts s)
