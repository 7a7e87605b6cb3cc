-- ===== src/Wire/Cursor.antt =====
-- The bounds-checked writes of src/wire/serialize.c, one behind the other.
use dapper_lite.Prelude.{
  ℕ, ◌+◌, ◌<◌, ◌≤◌, ◌^◌, ◌≡◌, refl, false, List, [], ◌∷◌, ◌++◌, arith, ltb, length, drop,
  length-append, append_assoc, length-drop,
}
use dapper_lite.Prelude.Outcome.{Outcome, ok}
use dapper_lite.Memory.{write_bytes, write_bytes-append}
use dapper_lite.ByteOrder.{Host, be_bytes}
use dapper_lite.ByteOrder.Laws.{length-be_bytes, object_bytes-htons, object_bytes-hton64}
use dapper_lite.Wire.{write_u64, write_u16, write_u8}

pub not_beyond : (a b : ℕ) → b ≤ a → ltb a b ≡ false
not_beyond a b h = ground arith

-- `done` is written, `rest` is the buffer behind it, and `bufsize` does not pass the buffer.
pub record Cursor (done rest : List ℕ) (off bufsize : ℕ) : Type 0 where
  pub at : length done ≡ off
  pub room : bufsize ≤ off + length rest

-- One write of `n` bytes at the cursor: what it gives, and the cursor behind it.
abbrev pub Writes : Outcome (List ℕ) → List ℕ → List ℕ → ℕ → List ℕ → ℕ → ℕ → Type 0
Writes result done bytes n rest off bufsize =
    (result ≡ ok ((done ++ bytes) ++ drop n rest))
    × Cursor (done ++ bytes) (drop n rest) (off + n) bufsize

pub write_bytes-Writes :
    (done rest bytes : List ℕ) (n off bufsize : ℕ)
    → Cursor done rest off bufsize
    → length bytes ≡ n
    → off + n ≤ bufsize
    → Writes (write_bytes (done ++ rest) off bytes) done bytes n rest off bufsize
write_bytes-Writes done rest bytes n off bufsize c l h = (
  rw (← c.at, append_assoc, ← l) (write_bytes-append done rest bytes (omega (arith, c.room, c.at))),
  record {
    at = omega (arith, length-append {A = ℕ} done bytes, c.at);
    room = omega (arith, length-drop {A = ℕ} n rest, c.room);
  },
)

module _ (host : Host) (done rest : List ℕ) (off bufsize val : ℕ)
    (c : Cursor done rest off bufsize) where
  pub write_u64-Writes :
      off + 8 ≤ bufsize
      → val < 2 ^ 64
      → Writes
          (write_u64 host (done ++ rest) off bufsize val)
          done
          (be_bytes 8 val)
          8
          rest
          off
          bufsize
  unfolding write_u64
  write_u64-Writes h v =
      rw (not_beyond bufsize (off + 8) h, object_bytes-hton64 host val v)
        (write_bytes-Writes done rest (be_bytes 8 val) 8 off bufsize c (length-be_bytes 8 val) h)

  pub write_u16-Writes :
      off + 2 ≤ bufsize
      → val < 2 ^ 16
      → Writes
          (write_u16 host (done ++ rest) off bufsize val)
          done
          (be_bytes 2 val)
          2
          rest
          off
          bufsize
  unfolding write_u16
  write_u16-Writes h v =
      rw (not_beyond bufsize (off + 2) h, object_bytes-htons host val v)
        (write_bytes-Writes done rest (be_bytes 2 val) 2 off bufsize c (length-be_bytes 2 val) h)

pub write_u8-Writes :
    (done rest : List ℕ) (off bufsize val : ℕ)
    → Cursor done rest off bufsize
    → off + 1 ≤ bufsize
    → Writes (write_u8 (done ++ rest) off bufsize val) done (val ∷ []) 1 rest off bufsize
unfolding write_u8
write_u8-Writes done rest off bufsize val c h =
    rw (not_beyond bufsize (off + 1) h)
      (write_bytes-Writes done rest (val ∷ []) 1 off bufsize c refl h)
