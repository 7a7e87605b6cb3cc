-- ===== src/ByteOrder.antt =====
-- include/dapper/byteorder.h: unsigned integers in the memory of a little-endian and of a
-- big-endian host, and the conversions to network order.
pub mod Laws
use dapper_lite.Prelude.{ℕ, zero, suc, ◌+◌, ◌*◌, ◌/◌, ◌%◌, ◌^◌, List, [], ◌∷◌, ◌++◌}

-- The byte order of the machine that the program runs on.
pub data Host : Type 0 where
  little big : Host

-- An unsigned integer as its `n` bytes, most significant first, and the value of such bytes.
unfoldable pub be_bytes : ℕ → ℕ → List ℕ
be_bytes zero v = []
be_bytes (suc n) v = be_bytes n (v / 256) ++ (v % 256 ∷ [])

unfoldable pub of_be : ℕ → List ℕ → ℕ
of_be acc [] = acc
of_be acc (b ∷ bs) = of_be (acc * 256 + b) bs

unfoldable pub le_bytes : ℕ → ℕ → List ℕ
le_bytes zero v = []
le_bytes (suc n) v = v % 256 ∷ le_bytes n (v / 256)

unfoldable pub of_le : List ℕ → ℕ
of_le [] = 0
of_le (b ∷ bs) = b + 256 * of_le bs

-- The bytes of an object of `n` bytes that holds `v`, and the value that such an object holds.
unfoldable pub object_bytes : Host → ℕ → ℕ → List ℕ
object_bytes little n v = le_bytes n v
object_bytes big n v = be_bytes n v

unfoldable pub object_value : Host → List ℕ → ℕ
object_value little bs = of_le bs
object_value big bs = of_be 0 bs

-- `htons` and `htonl` of <arpa/inet.h>; `ntohs` and `ntohl` are the same maps.
unfoldable pub htons : Host → ℕ → ℕ
htons little v = v % 256 * 256 + v / 256 % 256
htons big v = v

unfoldable pub htonl : Host → ℕ → ℕ
htonl little v =
    v % 256 * 2 ^ 24 + v / 2 ^ 8 % 256 * 2 ^ 16 + v / 2 ^ 16 % 256 * 2 ^ 8 + v / 2 ^ 24 % 256
htonl big v = v

-- The two halves that `|` joins have no bit in common, so their sum is meant.
unfoldable pub dapper_hton64 : Host → ℕ → ℕ
unfolding htonl
dapper_hton64 little v = htonl little (v % 2 ^ 32) * 2 ^ 32 + htonl little (v / 2 ^ 32)
dapper_hton64 big v = v

unfoldable pub dapper_ntoh64 : Host → ℕ → ℕ
unfolding dapper_hton64
dapper_ntoh64 host v = dapper_hton64 host v
