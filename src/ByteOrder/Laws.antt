-- ===== src/ByteOrder/Laws.antt =====
-- The conversions give the same network bytes on either host, and undo one another.
use dapper_lite.Prelude.{
  ℕ, zero, suc, ◌+◌, ◌*◌, ◌/◌, ◌%◌, ◌^◌, ◌<◌, ◌≤◌, ◌≡◌, refl, List, [], ◌∷◌, arith, length,
  length-append, All,
}
use native.Mathlib.Nat.{pow-suc}
use dapper_lite.ByteOrder.{
  Host, little, big, be_bytes, of_be, le_bytes, of_le, object_bytes, object_value, htons, htonl,
  dapper_hton64, dapper_ntoh64,
}

abbrev pub IsByte : ℕ → Type 0
IsByte b = b < 256

pub length-be_bytes : (n v : ℕ) → length (be_bytes n v) ≡ n
unfolding be_bytes
length-be_bytes zero v = refl
length-be_bytes (suc n) v =
    omega
      (arith, length-append {0} (be_bytes n (v / 256)) (v % 256 ∷ []), length-be_bytes n (v / 256))

-- What the program stores after a conversion is the big-endian form on either host.
pub object_bytes-htons :
    (host : Host) (v : ℕ) → v < 2 ^ 16 → object_bytes host 2 (htons host v) ≡ be_bytes 2 v
unfolding object_bytes htons be_bytes le_bytes
object_bytes-htons little v h = ground arith
object_bytes-htons big v h = refl

pub object_bytes-htonl :
    (host : Host) (v : ℕ) → v < 2 ^ 32 → object_bytes host 4 (htonl host v) ≡ be_bytes 4 v
unfolding object_bytes htonl be_bytes le_bytes
object_bytes-htonl little v h = ground arith
object_bytes-htonl big v h = refl

pub object_bytes-hton64 :
    (host : Host) (v : ℕ) → v < 2 ^ 64 → object_bytes host 8 (dapper_hton64 host v) ≡ be_bytes 8 v
unfolding object_bytes dapper_hton64 be_bytes le_bytes
object_bytes-hton64 little v h = ground arith
object_bytes-hton64 big v h = refl

-- And what it loads and converts back from network bytes is the value that they stand for.
pub htons-be_bytes :
    (host : Host) (v : ℕ) → v < 2 ^ 16 → htons host (object_value host (be_bytes 2 v)) ≡ v
unfolding object_value htons of_be of_le be_bytes
htons-be_bytes little v h = omega arith
htons-be_bytes big v h = omega arith

pub htonl-be_bytes :
    (host : Host) (v : ℕ) → v < 2 ^ 32 → htonl host (object_value host (be_bytes 4 v)) ≡ v
unfolding object_value htonl of_be of_le be_bytes
htonl-be_bytes little v h = omega arith
htonl-be_bytes big v h = omega arith

pub ntoh64-be_bytes :
    (host : Host) (v : ℕ) → v < 2 ^ 64 → dapper_ntoh64 host (object_value host (be_bytes 8 v)) ≡ v
unfolding object_value dapper_ntoh64 of_be of_le be_bytes
ntoh64-be_bytes little v h = omega arith
ntoh64-be_bytes big v h = omega arith

scaled : (k p : ℕ) → k ≤ 256 → k * p ≤ 256 * p
scaled k p h = grind arith

of_be_bound : (acc : ℕ) (bs : List ℕ) → All IsByte bs → of_be acc bs < (acc + 1) * 256 ^ length bs
unfolding of_be
of_be_bound acc [] h = omega arith
of_be_bound acc (b ∷ bs) h =
    let p = 256 ^ length bs in
    let ih : of_be (acc * 256 + b) bs < (acc * 256 + b + 1) * p =
      of_be_bound (acc * 256 + b) bs h.1 in
    rw (pow-suc 256 (length bs)) (omega (arith, ih, scaled (b + 1) p (omega arith)))

pub ntoh64_bound :
    (host : Host) (bs : List ℕ)
    → length bs ≡ 8
    → All IsByte bs
    → dapper_ntoh64 host (object_value host bs) < 2 ^ 64
unfolding dapper_ntoh64 object_value
ntoh64_bound little bs l h = omega arith
ntoh64_bound big bs l h =
    let b : of_be 0 bs < (0 + 1) * 256 ^ 8 = rw l at (of_be_bound 0 bs h) in omega arith
