-- ===== src/Wire/Reader.antt =====
-- Reading at an offset what stands there in the buffer: numbers, and strings into arrays.
use dapper_lite.Prelude.{
  ℕ, zero, suc, ◌+◌, ◌-◌, ◌<◌, ◌≤◌, ◌^◌, ◌≡◌, refl, sym, ap, ◌∙◌, List, [], ◌∷◌, ◌++◌, arith,
  lt→leb, length, drop, replicate, length-append, length-replicate, append_assoc,
}
use dapper_lite.Prelude.Outcome.{ok}
use dapper_lite.Memory.{write_bytes, read_bytes, write_bytes-append, read_bytes-append}
use dapper_lite.ByteOrder.{Host, be_bytes}
use dapper_lite.ByteOrder.Laws.{length-be_bytes, htons-be_bytes, ntoh64-be_bytes}
use dapper_lite.Core.Strings.{c_array}
use dapper_lite.Wire.{read_u64, read_u16, read_u8, read_string_field}
use dapper_lite.Wire.Layout.{string_bytes}
use dapper_lite.Wire.Cursor.{not_beyond}

-- `bytes` stands in `mem` at `off`, with `rest` behind it.
pub record Stands (mem bytes rest : List ℕ) (off : ℕ) : Type 0 where
  pub front : List ℕ
  pub split : mem ≡ front ++ (bytes ++ rest)
  pub at : length front ≡ off

-- The first part of what stands at `off`, and the part behind it.
pub part :
    {mem rest : List ℕ} {off : ℕ} (a b : List ℕ)
    → Stands mem (a ++ b) rest off
    → Stands mem a (b ++ rest) off
part a b s = record { front = s.front; split = rw append_assoc at s.split; at = s.at }

pub behind :
    {mem rest : List ℕ} {off : ℕ} (off' : ℕ) (a b : List ℕ)
    → Stands mem (a ++ b) rest off
    → off + length a ≡ off'
    → Stands mem b rest off'
behind {rest = rest} off' a b s l = record {
  front = s.front ++ a;
  split = s.split ∙ simp append_assoc;
  at = omega (arith, length-append {A = ℕ} s.front a, s.at);
}

pub read_bytes-Stands :
    {mem bytes rest : List ℕ} {off : ℕ} (n : ℕ)
    → Stands mem bytes rest off
    → length bytes ≡ n
    → read_bytes mem off n ≡ ok bytes
read_bytes-Stands {mem} {bytes} {rest} n s l =
    rw (s.split, ← s.at, ← l) (read_bytes-append s.front bytes rest)

module _ (host : Host) {mem rest : List ℕ} {off : ℕ} (v : ℕ) where
  pub read_u64-Stands :
      Stands mem (be_bytes 8 v) rest off → v < 2 ^ 64 → read_u64 host mem off ≡ ok v
  unfolding read_u64
  read_u64-Stands s h = rw (read_bytes-Stands 8 s (length-be_bytes 8 v), ntoh64-be_bytes host v h)

  pub read_u16-Stands :
      Stands mem (be_bytes 2 v) rest off → v < 2 ^ 16 → read_u16 host mem off ≡ ok v
  unfolding read_u16
  read_u16-Stands s h = rw (read_bytes-Stands 2 s (length-be_bytes 2 v), htons-be_bytes host v h)

pub read_u8-Stands :
    {mem rest : List ℕ} {off : ℕ} (v : ℕ) → Stands mem (v ∷ []) rest off → read_u8 mem off ≡ ok v
unfolding read_u8
read_u8-Stands v s = rw (read_bytes-Stands 1 s refl)

drop-replicate : (k n v : ℕ) → drop k (replicate n v) ≡ replicate (n - k) v
drop-replicate zero n v = let e : n ≡ n - 0 = omega arith in ap (λ m. replicate m v) e
drop-replicate (suc k) zero v = let e : 0 ≡ 0 - suc k = omega arith in ap (λ m. replicate m v) e
drop-replicate (suc k) (suc n) v =
    let e : n - k ≡ suc n - suc k = omega arith in drop-replicate k n v ∙ ap (λ m. replicate m v) e

-- A string copied into a zeroed array, and its terminator.
pub copied :
    (n : ℕ) (s : List ℕ) (k : ℕ)
    → length s ≡ k
    → k < n
    → (write_bytes (replicate n 0) 0 s ≡ ok (c_array n s))
      × (write_bytes (c_array n s) k (0 ∷ []) ≡ ok (c_array n s))
unfolding c_array
copied n s k e h = (
  write_bytes-append [] (replicate n 0) s (omega (arith, length-replicate {A = ℕ} n 0))
      ∙ ap (λ (z : List ℕ). ok (s ++ z)) (drop-replicate (length s) n 0),
  rw (← e, sym gap)
      (write_bytes-append s (replicate (suc (n - length s - 1)) 0) (0 ∷ []) (omega arith)),
)
  where
    gap : suc (n - length s - 1) ≡ n - length s
    gap = omega arith

pub read_string_field-Stands :
    (host : Host) {mem rest : List ℕ} {off : ℕ} (bufsize n : ℕ) (s : List ℕ)
    → Stands mem (string_bytes s) rest off
    → length s < n
    → n ≤ 2 ^ 16
    → off + 2 + length s ≤ bufsize
    → read_string_field host mem bufsize off (replicate n 0) n
      ≡ ok (c_array n s, off + 2 + length s)
unfolding read_string_field string_bytes
read_string_field-Stands host {mem} {rest} {off} bufsize n s st h small room =
    let p = part (be_bytes 2 (length s)) s st in
    rw (
      not_beyond bufsize (off + 2) (omega arith),
      read_u16-Stands host (length s) p (omega arith),
      not_beyond bufsize (off + 2 + length s) room,
      lt→leb n (length s) h,
      read_bytes-Stands (length s)
          (behind (off + 2) (be_bytes 2 (length s)) s st
            (omega (arith, length-be_bytes 2 (length s))))
          refl,
      (copied n s (length s) refl h).0,
      (copied n s (length s) refl h).1,
    )
