-- ===== src/Tests/Spans.antt =====
-- The theorems on single spans, at concrete ones: the wire format, the context, the API of spans
-- and the critical path.
use dapper_lite.Prelude.{
  ℕ, zero, suc, ◌-◌, ◌≤◌, ◌≡◌, refl, true, false, List, [], ◌∷◌, ◌++◌, arith, length, drop,
  replicate, All,
}
use dapper_lite.Prelude.Outcome.{ok, ◌>>=◌, Safe}
use dapper_lite.ByteOrder.{little, big}
use dapper_lite.ByteOrder.Laws.{IsByte}
use dapper_lite.Core.{Span}
use dapper_lite.Wire.{span_serialize, span_deserialize}
use dapper_lite.Wire.Layout.{IsSpan, span_bytes}
use dapper_lite.Wire.Encode.{span_serialize_lem}
use dapper_lite.Wire.Decode.{received}
use dapper_lite.Wire.RoundTrip.{span_deserialize-span_serialize}
use dapper_lite.Wire.Safety.{span_deserialize-Safe}
use dapper_lite.Context.{context_inject, context_extract}
use dapper_lite.Context.RoundTrip.{context_extract-context_inject}
use dapper_lite.SpanLife.{span_annotate, span_finish, span_duration_ns}
use dapper_lite.SpanLife.Laws.{Annotated, span_annotate-Annotated, span_finish_once}
use dapper_lite.CriticalPath.{SpanTree, null, node, compute_critical_path}
use dapper_lite.CriticalPath.Laws.{IsCriticalPath, compute_critical_path-IsCriticalPath}
use dapper_lite.Tests.Data.{root_span, child_span, root_span-IsSpan}

-- A buffer in which the name is cut short.
abbrev buffer : List ℕ
buffer = replicate 50 0

span_deserialize-span_serialize_example :
    let n = length (span_bytes root_span true 50) in
    (out : List ℕ) × (span_serialize little buffer 50 root_span true ≡ ok (out, n))
    × (length out ≡ length buffer)
    × (n ≤ 50)
    × (span_deserialize little out 50 ≡ ok (received root_span true 50, true, n))
span_deserialize-span_serialize_example =
    span_deserialize-span_serialize little buffer 50 root_span true 50 root_span-IsSpan
      (omega arith) (omega arith)
      (span_serialize_lem little buffer 50 root_span true root_span-IsSpan (omega arith)
        (omega arith)).1

span_serialize_lem_example :
    (span_serialize big buffer 50 root_span false
      ≡ ok (
        span_bytes root_span false 50 ++ drop (length (span_bytes root_span false 50)) buffer,
        length (span_bytes root_span false 50),
      ))
    × (length (span_bytes root_span false 50) ≤ 50)
span_serialize_lem_example =
    span_serialize_lem big buffer 50 root_span false root_span-IsSpan (omega arith) (omega arith)

zeroes_AreBytes : (n : ℕ) → All IsByte (replicate n 0)
zeroes_AreBytes zero = tt
zeroes_AreBytes (suc n) = (omega arith, zeroes_AreBytes n)

span_deserialize-Safe_example :
    Safe (λ r. IsSpan r.0 × (r.0.sampled ≡ r.1) × (r.2 ≤ 50)) (span_deserialize little buffer 50)
span_deserialize-Safe_example =
    span_deserialize-Safe little buffer 50 (zeroes_AreBytes 50) (omega arith)

context_extract-context_inject_example :
    (context_inject little root_span buffer 20 >>= λ b. context_extract big b 20)
    ≡ ok (record {
      trace_id = root_span.trace_id;
      span_id = root_span.span_id;
      sampled = root_span.sampled;
    })
context_extract-context_inject_example =
    context_extract-context_inject little big root_span buffer 20 root_span-IsSpan.trace_id_fits
      root_span-IsSpan.span_id_fits (omega arith) (omega arith)

span_annotate-Annotated_example :
    (after : Span) × (span_annotate root_span (107 ∷ []) (replicate 300 118) ≡ ok after)
    × Annotated root_span after
span_annotate-Annotated_example =
    span_annotate-Annotated root_span (107 ∷ []) (replicate 300 118) root_span-IsSpan

abbrev open_span : Span
open_span = record root_span { monotonic_start_ns = 1000; monotonic_end_ns = 0 }

span_finish_once_example :
    (span_finish 9000 (span_finish 4000 open_span) ≡ span_finish 4000 open_span)
    × (span_duration_ns (span_finish 4000 open_span) ≡ 4000 - open_span.monotonic_start_ns)
span_finish_once_example =
    span_finish_once open_span 4000 9000 refl (omega arith) (λ e. omega (arith, e)) (omega arith)

abbrev children : SpanTree
children = node child_span null (node root_span (node child_span null null) null)

compute_critical_path-IsCriticalPath_example :
    IsCriticalPath
      (node root_span children null)
      (compute_critical_path (node root_span children null))
compute_critical_path-IsCriticalPath_example =
    compute_critical_path-IsCriticalPath root_span children null
