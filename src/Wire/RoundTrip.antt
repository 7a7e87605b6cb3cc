-- ===== src/Wire/RoundTrip.antt =====
-- The serializer and the deserializer together.
use dapper_lite.Prelude.{
  ℕ, ◌≤◌, ◌≡◌, Bool, List, ◌++◌, arith, length, drop, length-append, length-drop,
}
use dapper_lite.Prelude.Outcome.{ok}
use dapper_lite.ByteOrder.{Host}
use dapper_lite.Core.{Span}
use dapper_lite.Wire.{span_serialize, span_deserialize}
use dapper_lite.Wire.Layout.{IsSpan, span_bytes}
use dapper_lite.Wire.Encode.{span_serialize_lem}
use dapper_lite.Wire.Decode.{received, span_deserialize_lem}

-- A well-formed span is serialized into every buffer of 48 bytes or more, without a write outside
-- the buffer: the buffer keeps its size, and the length that is returned is that of the layout,
-- at most `bufsize`. Deserializing the buffer with a `size` of that length or more succeeds,
-- consumes the same number of bytes, and gives the sampling decision and the span that `received`
-- describes.
pub span_deserialize-span_serialize :
    (host : Host) (buffer : List ℕ) (bufsize : ℕ) (span : Span) (sampled : Bool) (size : ℕ)
    → IsSpan span
    → 48 ≤ bufsize
    → bufsize ≤ length buffer
    → length (span_bytes span sampled bufsize) ≤ size
    → let n = length (span_bytes span sampled bufsize) in
      (out : List ℕ) × (span_serialize host buffer bufsize span sampled ≡ ok (out, n))
      × (length out ≡ length buffer)
      × (n ≤ bufsize)
      × (span_deserialize host out size ≡ ok (received span sampled bufsize, sampled, n))
span_deserialize-span_serialize host buffer bufsize span sampled size h low room fits =
    let bytes = span_bytes span sampled bufsize in
    let s = span_serialize_lem host buffer bufsize span sampled h low room in
    (
      bytes ++ drop (length bytes) buffer,
      s.0,
      omega (
        arith,
        s.1,
        length-append {A = ℕ} bytes (drop (length bytes) buffer),
        length-drop {A = ℕ} (length bytes) buffer,
      ),
      s.1,
      span_deserialize_lem host span sampled bufsize (drop (length bytes) buffer) size h low fits,
    )
