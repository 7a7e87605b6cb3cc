-- ===== src/Storage.antt =====
-- src/collector/storage.c and the reader of src/analysis/query.c: the append-only log of traces.
-- A log is the list of its bytes. Allocations succeed, so the staging buffer is a list that grows.
pub mod Log
pub mod RoundTrip
pub mod Queries
pub mod Torn
pub mod Cut
use dapper_lite.Prelude.{
  ℕ, zero, suc, ◌+◌, ◌%◌, ◌^◌, Bool, true, false, ◌&&◌, ◌||◌, Option, none, some, List, [], ◌∷◌,
  ◌++◌, ltb, leb, ◌==◌, if◌then◌else◌, length, take, drop, map,
}
use dapper_lite.Prelude.Outcome.{Outcome, ok, failed, fault, ◌>>=◌, ◌>>◌, fail_if}
use dapper_lite.Memory.{read_bytes}
use dapper_lite.ByteOrder.{Host, object_bytes, object_value, htonl, dapper_hton64, dapper_ntoh64}
use dapper_lite.Core.{Span}
use dapper_lite.Wire.{span_serialize, span_deserialize, span_wire_max_size}
use dapper_lite.Collector.{PartialTrace}

abbrev pub storage_max_spans_per_trace : ℕ
storage_max_spans_per_trace = 2 ^ 20

pub data Status : Type 0 where
  read_ok read_eof read_corrupt : Status

-- A trace as it is read back, with its spans in the order of the log.
pub record LoggedTrace : Type 0 where
  pub id : ℕ
  pub sampled : Bool
  pub spans : List Span

module _ (host : Host) where
  -- The loop over the spans: the bytes that are staged, and `span_count`. `scratch` is what lies
  -- in `wire_buf` before it is written.
  unfoldable pub stage_spans : List ℕ → Bool → List Span → Outcome (List ℕ × ℕ)
  stage_spans scratch sampled [] = ok ([], 0)
  stage_spans scratch sampled (span ∷ spans) = do
    (wire_buf, wire_len) ← span_serialize host scratch span_wire_max_size span sampled
    wire ← read_bytes wire_buf 0 wire_len
    (staged, count) ← stage_spans scratch sampled spans
    ok (object_bytes host 4 (htonl host wire_len) ++ (wire ++ staged), count + 1)

  -- `written` is the number of bytes that `fwrite` reports for the record; it writes that many.
  -- The results are the log, and whether the return value is 0.
  unfoldable pub storage_write_trace :
      List ℕ → (ℕ → ℕ) → List ℕ → PartialTrace → Outcome (List ℕ × Bool)
  storage_write_trace scratch written log pt = do
    (staged, count) ← stage_spans scratch pt.sampled pt.spans
    let record_bytes =
        object_bytes host 8 (dapper_hton64 host pt.trace_id)
        ++ (object_bytes host 4 (htonl host count) ++ staged)
    let used = length record_bytes
    if count == 0
        then ok (log, true)
        else ok (log ++ take (written used) record_bytes, written used == used)

-- `fread` of `n` bytes at the read position: the bytes and what is behind them.
unfoldable pub fread : ℕ → List ℕ → Outcome (List ℕ × List ℕ)
fread n stream = if leb n (length stream) then ok (take n stream, drop n stream) else failed

abbrev pub first_sampled : List (Span × Bool) → Bool
first_sampled [] = false
first_sampled ((span, sampled) ∷ rest) = sampled

abbrev pub spans_of : List (Span × Bool) → List Span
spans_of [] = []
spans_of ((span, sampled) ∷ rest) = span ∷ spans_of rest

abbrev pub record_status :
    Outcome (LoggedTrace × List ℕ) → Outcome (Status × Option (LoggedTrace × List ℕ))
record_status (ok r) = ok (read_ok, some r)
record_status failed = ok (read_corrupt, none)
record_status fault = fault

module _ (host : Host) where
  -- The loop over the spans of a record: each with its own sampling flag.
  unfoldable pub read_spans : ℕ → List ℕ → Outcome (List (Span × Bool) × List ℕ)
  read_spans zero stream = ok ([], stream)
  read_spans (suc rounds) stream = do
    (slen_be, stream) ← fread 4 stream
    let slen = htonl host (object_value host slen_be)
    fail_if (slen == 0 || ltb span_wire_max_size slen)
    (wire, stream) ← fread slen stream
    (span, sampled, consumed) ← span_deserialize host wire slen
    (spans, stream) ← read_spans rounds stream
    ok ((span, sampled) ∷ spans, stream)

  -- The record behind its number: any failure is corruption.
  unfoldable pub read_record : ℕ → List ℕ → Outcome (LoggedTrace × List ℕ)
  unfolding fread
  read_record id stream = do
    (nspans_be, stream) ← fread 4 stream
    let num_spans = htonl host (object_value host nspans_be)
    fail_if (num_spans == 0 || ltb storage_max_spans_per_trace num_spans)
    (spans, stream) ← read_spans num_spans stream
    ok (record { id = id; sampled = first_sampled spans; spans = spans_of spans }, stream)

  unfoldable pub after_id :
      Outcome (List ℕ × List ℕ) → Outcome (Status × Option (LoggedTrace × List ℕ))
  unfolding read_record
  after_id failed = ok (read_eof, none)
  after_id fault = fault
  after_id (ok (tid_be, rest)) =
      record_status (read_record (dapper_ntoh64 host (object_value host tid_be)) rest)

  -- `read_one_trace` before the hierarchy is rebuilt. Reads fail only at the end of the log.
  unfoldable pub read_one_trace : List ℕ → Outcome (Status × Option (LoggedTrace × List ℕ))
  unfolding after_id
  read_one_trace stream = after_id (fread 8 stream)

  -- The loop of `query_load_all_status`: the traces, and the status that ended it. `failed` means
  -- that the fuel ran out; a turn that goes on takes 12 bytes at least.
  unfoldable pub load_all : ℕ → List ℕ → Outcome (List LoggedTrace × Status)
  load_all zero stream = failed
  load_all (suc fuel) stream = do
    (status, r) ← read_one_trace stream
    elim r [
      | none ↦ ok ([], status)
      | some (t, rest) ↦ load_all fuel rest >>= λ q. ok (t ∷ q.0, q.1)
    ]

  unfoldable pub query_load_all_status : List ℕ → Outcome (List LoggedTrace × Status)
  unfolding load_all
  query_load_all_status log = load_all (length log + 1) log
