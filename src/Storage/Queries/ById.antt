-- ===== src/Storage/Queries/ById.antt =====
-- A query by number finds what was stored.
use dapper_lite.Prelude.{
  ℕ, ◌≤◌, ◌≡◌, refl, ap, sym, inl, inr, Bool-cases, Option, none, some, List, [], ◌∷◌, map, ◌==◌,
  if◌then◌else◌, length, All,
}
use dapper_lite.Prelude.Outcome.{ok}
use dapper_lite.ByteOrder.{Host}
use dapper_lite.Collector.{PartialTrace}
use dapper_lite.Storage.{LoggedTrace}
use dapper_lite.Storage.Log.{IsStorable}
use dapper_lite.Storage.RoundTrip.{write_all, logged, query_load_all-write_all}
use dapper_lite.Storage.Queries.{pick_trace, query_trace_by_id}

abbrev or_else : Option LoggedTrace → Option LoggedTrace → Option LoggedTrace
or_else none o = o
or_else (some t) o = some t

-- The last trace with the number, looked for from the end, and the others.
unfoldable pub last_with : ℕ → List LoggedTrace → Option LoggedTrace
last_with id [] = none
last_with id (t ∷ all) = or_else (last_with id all) (if t.id == id then some t else none)

unfoldable pub without : ℕ → List LoggedTrace → List LoggedTrace
without id [] = []
without id (t ∷ all) = let rest = without id all in if t.id == id then rest else t ∷ rest

or_else-some :
    (o r : Option LoggedTrace) (t : LoggedTrace)
    → or_else o (some t) ≡ or_else (or_else o (some t)) r
or_else-some none r t = refl
or_else-some (some u) r t = refl

or_else-none : (o r : Option LoggedTrace) → or_else (or_else o none) r ≡ or_else o r
or_else-none none r = refl
or_else-none (some u) r = refl

pick_trace_lem :
    (id : ℕ) (result : Option LoggedTrace) (all : List LoggedTrace)
    → pick_trace id result all ≡ (or_else (last_with id all) result, without id all)
unfolding pick_trace last_with without
pick_trace_lem id result [] = refl
pick_trace_lem id result (t ∷ all) = elim (Bool-cases (t.id == id)) [
  | inl e ↦
      rw (e, pick_trace_lem id (some t) all)
        (ap (λ o. (o, without id all)) (or_else-some (last_with id all) result t))
  | inr e ↦
      rw (e, pick_trace_lem id result all)
        (ap (λ o. (o, t ∷ without id all)) (sym (or_else-none (last_with id all) result)))
]

-- On a log to which storable traces were written, `query_trace_by_id` returns the last one with
-- the number, if there is one, and frees all traces with other numbers.
pub query_trace_by_id-write_all :
    (host : Host) (scratch : List ℕ) (pts : List PartialTrace) (id : ℕ)
    → 256 ≤ length scratch
    → All IsStorable pts
    → (log : List ℕ) × (write_all host scratch [] pts ≡ ok log)
      × (query_trace_by_id host log id
          ≡ ok (last_with id (map logged pts), without id (map logged pts)))
unfolding query_trace_by_id
query_trace_by_id-write_all host scratch pts id h s =
    let (log, written, read) = query_load_all-write_all host scratch pts h s in
    (
      log,
      written,
      rw (read, pick_trace_lem id none (map logged pts))
          (ap (λ o. ok (o, without id (map logged pts)))
            (last_only (last_with id (map logged pts)))),
    )
  where
    last_only : (o : Option LoggedTrace) → or_else o none ≡ o
    last_only none = refl
    last_only (some t) = refl
