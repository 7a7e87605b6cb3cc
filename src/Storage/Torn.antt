-- ===== src/Storage/Torn.antt =====
-- The reader of src/analysis/query.c on a log with less than a number behind its records.
use dapper_lite.Prelude.{
  ℕ, zero, suc, ◌+◌, ◌<◌, ◌≡◌, none, List, [], ◌∷◌, ◌++◌, map, append_assoc, arith, leb, length,
  All, length-append, false,
}
use dapper_lite.Prelude.Outcome.{ok}
use dapper_lite.ByteOrder.{Host}
use dapper_lite.Collector.{PartialTrace}
use dapper_lite.Storage.{Status, read_eof, fread, read_one_trace, load_all, query_load_all_status}
use dapper_lite.Storage.Log.{record_bytes, IsStorable}
use dapper_lite.Storage.RoundTrip.{logged, log_bytes, length-log_bytes, read_one_trace-record_bytes}

module _ (host : Host) where
  -- The traces in front of a tail are read, and what the reader says of the tail is its status.
  pub load_all-tail :
      (pts : List PartialTrace) (tail : List ℕ) (status : Status) (fuel : ℕ)
      → All IsStorable pts
      → read_one_trace host tail ≡ ok (status, none)
      → length pts < fuel
      → load_all host fuel (log_bytes pts ++ tail) ≡ ok (map logged pts, status)
  unfolding load_all log_bytes
  load_all-tail pts tail status zero h e f = absurd (omega arith)
  load_all-tail [] tail status (suc fuel) h e f = rw e
  load_all-tail (pt ∷ pts) tail status (suc fuel) h e f = rw (
    append_assoc (record_bytes pt) (log_bytes pts) tail,
    read_one_trace-record_bytes host pt (log_bytes pts ++ tail) h.0,
    load_all-tail pts tail status fuel h.1 e (omega arith),
  )

  read_one_trace-short :
      (tail : List ℕ) → length tail < 8 → read_one_trace host tail ≡ ok (read_eof, none)
  unfolding read_one_trace fread
  read_one_trace-short tail h = let short : leb 8 (length tail) ≡ false = ground arith in rw short

  -- A log of storable traces with fewer than 8 bytes of a further record behind them is read up to
  -- those bytes, and the reader reports a clean end of file, whether or not there are such bytes.
  pub query_load_all-short_tail :
      (pts : List PartialTrace) (tail : List ℕ)
      → All IsStorable pts
      → length tail < 8
      → query_load_all_status host (log_bytes pts ++ tail) ≡ ok (map logged pts, read_eof)
  unfolding query_load_all_status
  query_load_all-short_tail pts tail h l =
      load_all-tail pts tail read_eof (length (log_bytes pts ++ tail) + 1) h
        (read_one_trace-short tail l)
        (omega (arith, length-append {A = ℕ} (log_bytes pts) tail, length-log_bytes pts))
