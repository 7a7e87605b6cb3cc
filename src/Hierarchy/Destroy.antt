-- ===== src/Hierarchy/Destroy.antt =====
-- `trace_destroy` frees what the trace owns.
use dapper_lite.Prelude.{
  ℕ, zero, suc, ◌<◌, ◌≤◌, ◌≡◌, refl, false, none, List, [], ◌∷◌, arith, length, All,
}
use dapper_lite.Prelude.Outcome.{ok, ◌>>=◌}
use dapper_lite.Core.{SpanPtr}
use dapper_lite.Hierarchy.{Heap, Trace, member, free_spans, trace_destroy, rebuild_hierarchy}
use dapper_lite.Hierarchy.Chains.{Chain, All-map}
use dapper_lite.Hierarchy.Siblings.{field→get, load_lem}
use dapper_lite.Hierarchy.Ownership.{down_from}
use dapper_lite.Hierarchy.Rebuild.{rebuild_hierarchy-Rebuilt}

-- Addresses below `hi`, each below the one before.
abbrev pub Descends : ℕ → List ℕ → Type 0
Descends hi [] = Unit {0}
Descends hi (x ∷ xs) = (x < hi) × Descends x xs

length-Descends : (hi : ℕ) (xs : List ℕ) → Descends hi xs → length xs ≤ hi
length-Descends hi [] d = omega arith
length-Descends hi (x ∷ xs) d = omega (arith, d.0, length-Descends x xs d.1)

member-above :
    (hi p : ℕ) (freed : List ℕ) → p < hi → All (λ q. hi ≤ q) freed → member p freed ≡ false
member-above hi p [] h a = refl
member-above hi p (q ∷ freed) h a = ground (arith, a.0, member-above hi p freed h a.1)

free_spans-Chain :
    (fuel : ℕ) (heap : Heap) (freed : List ℕ) (ptr : SpanPtr) (hi : ℕ) (xs : List ℕ)
    → length xs ≤ fuel
    → Descends hi xs
    → All (λ q. hi ≤ q) freed
    → Chain (λ s. s.owner_next) heap ptr xs
    → free_spans fuel heap freed ptr ≡ ok xs
unfolding free_spans
free_spans-Chain fuel heap freed ptr hi [] n d a c = rw c (free_spans-none fuel)
  where
    free_spans-none : (fuel : ℕ) → free_spans fuel heap freed none ≡ ok []
    free_spans-none zero = refl
    free_spans-none (suc fuel) = refl
free_spans-Chain zero heap freed ptr hi (x ∷ xs) n d a c = absurd (omega (arith, n))
free_spans-Chain (suc fuel) heap freed ptr hi (x ∷ xs) n d a (e, nxt, at_x, c) =
    let (s, get_x, s_next) = field→get (λ s. s.owner_next) heap x at_x in
    let new = member-above hi x freed d.0 a in
    let rest =
      free_spans-Chain fuel heap (x ∷ freed) s.owner_next x xs (omega (arith, n)) d.1
        (omega arith, All-map freed (λ q h. omega (arith, h, d.0)) a) (rw s_next c) in
    rw (e, new, load_lem heap x get_x, rest) refl

-- If the spans that a trace owns are a list in which no span comes twice, later spans first, then
-- `trace_destroy` frees exactly these, in this order, and reads no span that it has freed.
pub trace_destroy-owned :
    (heap : Heap) (trace : Trace) (owned : List ℕ)
    → Chain (λ s. s.owner_next) heap trace.all_spans owned
    → Descends (length heap) owned
    → trace_destroy heap trace ≡ ok owned
unfolding trace_destroy
trace_destroy-owned heap trace owned c d =
    free_spans-Chain (length heap) heap [] trace.all_spans (length heap) owned
      (length-Descends (length heap) owned d) d tt c

down_from-Descends : (n : ℕ) → Descends n (down_from n)
down_from-Descends zero = tt
down_from-Descends (suc n) = (omega arith, down_from-Descends n)

-- After `rebuild_hierarchy` on the spans of a new trace, `trace_destroy` frees every span of the
-- array exactly once, the last one first, and reads no span that it has freed.
pub trace_destroy-rebuild_hierarchy :
    (spans : Heap) (trace : Trace)
    → trace.all_spans ≡ none
    → (rebuild_hierarchy spans trace >>= λ r. trace_destroy r.0 r.1) ≡ ok (down_from (length spans))
trace_destroy-rebuild_hierarchy spans trace h =
    let (heap, trace', run, built) = rebuild_hierarchy-Rebuilt spans trace h in
    rw run (
      trace_destroy-owned heap trace' (down_from (length spans)) built.owned
        (rw built.size (down_from-Descends (length spans))))
