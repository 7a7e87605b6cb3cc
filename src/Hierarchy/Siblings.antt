-- ===== src/Hierarchy/Siblings.antt =====
-- The end of a list of siblings.
use dapper_lite.Prelude.{
  ℕ, zero, suc, ◌<◌, ◌≤◌, ◌≡◌, ◌≢◌, refl, ap, ◌∙◌, true, none, some, List, [], ◌∷◌, ◌++◌, arith,
  ltb, length, get_elem?, All,
}
use dapper_lite.Prelude.Outcome.{ok}
use dapper_lite.Core.{Span, SpanPtr}
use dapper_lite.Hierarchy.{Heap, modify, load, update, append_sibling}
use dapper_lite.Hierarchy.Chains.{
  field, next_of, Chain, Ascends, field-modify_ne, field-modify_self,
}

pub get→lt : (heap : Heap) (p : ℕ) {s : Span} → get_elem? heap p ≡ some s → p < length heap
get→lt [] p h = cc
get→lt (t ∷ heap) zero h = omega arith
get→lt (t ∷ heap) (suc p) h = omega (arith, get→lt heap p h)

pub field→get :
    {A : Type 0} (g : Span → A) (heap : Heap) (p : ℕ) {v : A}
    → field g heap p ≡ some v
    → (s : Span) × (get_elem? heap p ≡ some s) × (g s ≡ v)
field→get g [] p h = cc
field→get g (s ∷ heap) zero h = (s, refl, cc)
field→get g (s ∷ heap) (suc p) h = field→get g heap p h

pub load_lem : (heap : Heap) (p : ℕ) {s : Span} → get_elem? heap p ≡ some s → load heap p ≡ ok s
unfolding load
load_lem heap p h = rw (h, load)

pub update_lem :
    (heap : Heap) (p : ℕ) (f : Span → Span)
    → p < length heap
    → update heap p f ≡ ok (modify heap p f)
unfolding update
update_lem heap p f h = let e : ltb p (length heap) ≡ true = ground arith in rw e

abbrev pub link_next : ℕ → Span → Span
link_next k t = record t { next_sibling = some k }

abbrev pub link_first : ℕ → Span → Span
link_first k t = record t { first_child = some k }

pub append_sibling-Chain :
    (P : ℕ → Type 0) (fuel : ℕ) (heap : Heap) (x : ℕ) (xs : List ℕ) (k : ℕ) (nxt : SpanPtr)
    → next_of heap x ≡ some nxt
    → Chain (λ s. s.next_sibling) heap nxt xs
    → Ascends (suc x) xs
    → All P (x ∷ xs)
    → All (λ y. y < k) (x ∷ xs)
    → length xs < fuel
    → next_of heap k ≡ some none
    → (l : ℕ) × (append_sibling fuel heap x k ≡ ok (modify heap l (link_next k)))
      × P l
      × (x ≤ l)
      × (l < k)
      × Chain (λ s. s.next_sibling) (modify heap l (link_next k)) (some x) (x ∷ (xs ++ (k ∷ [])))
unfolding append_sibling
append_sibling-Chain P zero heap x xs k nxt e c a p b f n = absurd (omega arith)
append_sibling-Chain P (suc fuel) heap x [] k nxt e c a p b f n =
    let (s, at_x, s_next) = field→get (λ s. s.next_sibling) heap x e in
    let last : s.next_sibling ≡ none = s_next ∙ c in
    let inside = get→lt heap x at_x in
    let apart : x ≢ k = λ q. omega (arith, b.0, q) in
    (
      x,
      rw (load_lem heap x at_x, last) (update_lem heap x (link_next k) inside),
      p.0,
      omega arith,
      b.0,
      (
        refl,
        some k,
        field-modify_self (λ s. s.next_sibling) (link_next k) (some k) (λ s. refl) heap x inside,
        (refl, none, field-modify_ne (λ s. s.next_sibling) (link_next k) heap x k apart ∙ n, refl),
      ),
    )
append_sibling-Chain P (suc fuel) heap x (y ∷ ys) k nxt e (e', nxt', at_y, c) a p b f n =
    let (s, at_x, s_next) = field→get (λ s. s.next_sibling) heap x e in
    let more : s.next_sibling ≡ some y = s_next ∙ e' in
    let (l, run, q, above, below, chain) =
      append_sibling-Chain P fuel heap y ys k nxt' at_y c a.1 p.1 b.1 (omega arith) n in
    let apart : l ≢ x = λ q. omega (arith, above, a.0, q) in
    (
      l,
      rw (load_lem heap x at_x, more) run,
      q,
      omega (arith, above, a.0),
      below,
      (
        refl,
        some y,
        field-modify_ne (λ s. s.next_sibling) (link_next k) heap l x apart ∙ e ∙ ap some e',
        chain,
      ),
    )
