-- ===== src/Tests/Exports.antt =====
-- The theorems on the ring and the exporter, at a ring of three slots.
use dapper_lite.Prelude.{ℕ, ◌-◌, ◌≡◌, Bool, true, List, [], ◌∷◌, ◌==◌}
use dapper_lite.Prelude.Outcome.{Safe, map_ok}
use dapper_lite.ByteOrder.{little, big}
use dapper_lite.Ring
use dapper_lite.Ring.{Ring, max_payload_size}
use dapper_lite.Ring.Contents.{IsValid, contents}
use dapper_lite.Ring.Queue.{put, get}
use dapper_lite.Ring.Refine.{push_refines, pop_refines}
use dapper_lite.Wire.Layout.{span_bytes}
use dapper_lite.Exporter.{Exporter}
use dapper_lite.Exporter.Delivery.{Event, submitted, turn}
use dapper_lite.Tests.Data.{root_span, child_span, root_span-IsSpan, small_ring, small_ring-IsValid}

push_refines_example :
    (map_ok (contents little) (Ring.push little small_ring root_span true)
      ≡ put
          (small_ring.capacity - 1)
          (contents little small_ring)
          (span_bytes root_span true max_payload_size))
    × Safe
        (λ rb'. IsValid rb' × (rb'.capacity ≡ small_ring.capacity))
        (Ring.push little small_ring root_span true)
push_refines_example = push_refines little small_ring-IsValid root_span true root_span-IsSpan

pop_refines_example :
    (map_ok (λ r. (r.0, contents big r.1)) (Ring.pop big small_ring)
      ≡ get (contents big small_ring))
    × Safe (λ r. IsValid r.1 × (r.1.capacity ≡ small_ring.capacity)) (Ring.pop big small_ring)
pop_refines_example = pop_refines big small_ring-IsValid

-- The second write of the thread fails.
abbrev accepts : ℕ → Bool
accepts attempt = attempt == 0

abbrev events : List Event
events = submitted root_span ∷ submitted child_span ∷ turn ∷ submitted root_span ∷ turn ∷ []
