-- ===== src/Exporter/Delivery.antt =====
-- The exporter as a whole: any sequence of calls, and the drain when it stops.
use dapper_lite.Prelude.{ℕ, ◌+◌, ◌≡◌, Bool, List, [], ◌∷◌}
use dapper_lite.Prelude.Outcome.{Outcome, ok, ◌>>=◌}
use dapper_lite.ByteOrder.{Host}
use dapper_lite.Core.{Span}
use dapper_lite.Wire.Layout.{IsSpan, span_bytes}
use dapper_lite.Ring
use dapper_lite.Ring.{Ring, max_payload_size}
use dapper_lite.Ring.Contents.{contents}
use dapper_lite.Exporter.{Exporter, export_next, submit}
use dapper_lite.Exporter.Accounting.{Account}

-- What happens to a running exporter, in any order: a call of `exporter_submit`, or a turn of the
-- thread.
pub data Event : Type 0 where
  submitted : Span → Event
  turn : Event

abbrev pub AllSpans : List Event → Type 0
AllSpans [] = Unit {0}
AllSpans (submitted span ∷ events) = IsSpan span × AllSpans events
AllSpans (turn ∷ events) = AllSpans events

-- Which layouts the ring accepts from a sequence of events, and how many submissions it refuses.
pub data Admission : List Event → List (List ℕ) → ℕ → Type 0 where
  no_event : Admission [] [] 0
  took :
      (span : Span) {events : List Event} {kept : List (List ℕ)} {lost : ℕ}
      → Admission events kept lost
      → Admission
          (submitted span ∷ events)
          (span_bytes span span.sampled max_payload_size ∷ kept)
          lost
  refused :
      (span : Span) {events : List Event} {kept : List (List ℕ)} {lost : ℕ}
      → Admission events kept lost
      → Admission (submitted span ∷ events) kept (lost + 1)
  worked :
      {events : List Event} {kept : List (List ℕ)} {lost : ℕ}
      → Admission events kept lost
      → Admission (turn ∷ events) kept lost

module _ (host : Host) (accepts : ℕ → Bool) where
  unfoldable pub run : Exporter → List Event → Outcome Exporter
  run exp [] = ok exp
  run exp (submitted span ∷ events) = submit host exp span >>= λ e. run e events
  run exp (turn ∷ events) = export_next host accepts exp >>= λ e. run e events

  -- The exporter after the drain: nothing waits, and the account is that of before.
  abbrev Drained : List (List ℕ) → ℕ → Outcome Exporter → Type 0
  Drained accepted dropped r =
      (e : Exporter) × (r ≡ ok e) × Account host accepted dropped e × (contents host e.ring ≡ [])
