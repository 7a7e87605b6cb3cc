-- ===== src/Memory.antt =====
-- C memory as lists of bytes: bounded copies, strings in fixed arrays, and the two byte orders.
use dapper_lite.Prelude.{
  ℕ, ◌+◌, ◌≤◌, ◌≡◌, List, ◌++◌, arith, leb, if◌then◌else◌, length, take, drop, length-append,
  take_self, drop_self, drop_past, le→leb,
}
use dapper_lite.Prelude.Outcome.{Outcome, ok, fault}

-- `memcpy(mem + off, bytes, length bytes)`.
unfoldable pub write_bytes : List ℕ → ℕ → List ℕ → Outcome (List ℕ)
write_bytes mem off bytes =
    if leb (off + length bytes) (length mem)
    then ok (take off mem ++ (bytes ++ drop (off + length bytes) mem))
    else fault

-- The `n` bytes at `mem + off`.
unfoldable pub read_bytes : List ℕ → ℕ → ℕ → Outcome (List ℕ)
read_bytes mem off n = if leb (off + n) (length mem) then ok (take n (drop off mem)) else fault

-- Writing just behind what is written already.
pub write_bytes-append :
    (done rest bytes : List ℕ)
    → length bytes ≤ length rest
    → write_bytes (done ++ rest) (length done) bytes
      ≡ ok (done ++ (bytes ++ drop (length bytes) rest))
unfolding write_bytes
write_bytes-append done rest bytes h = rw (
  length-append done rest,
  le→leb (length done + length bytes) (length done + length rest) (omega arith),
  take_self done rest,
  drop_past done rest (length bytes),
)

pub read_bytes-append :
    (front bytes rest : List ℕ)
    → read_bytes (front ++ (bytes ++ rest)) (length front) (length bytes) ≡ ok bytes
unfolding read_bytes
read_bytes-append front bytes rest = rw (
  length-append front (bytes ++ rest),
  length-append bytes rest,
  le→leb (length front + length bytes) (length front + (length bytes + length rest)) (omega arith),
  drop_self front (bytes ++ rest),
  take_self bytes rest,
)

pub read_bytes_lem :
    (mem : List ℕ) (off n : ℕ)
    → off + n ≤ length mem
    → read_bytes mem off n ≡ ok (take n (drop off mem))
unfolding read_bytes
read_bytes_lem mem off n h = rw (le→leb (off + n) (length mem) h)
