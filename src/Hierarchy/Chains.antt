-- ===== src/Hierarchy/Chains.antt =====
-- Lists of spans that are threaded through the heap.
use mathlib.Core.Option
use dapper_lite.Prelude.{
  ℕ, zero, suc, ◌<◌, ◌≤◌, ◌≡◌, ◌≢◌, refl, ap, ◌∙◌, Option, none, some, List, [], ◌∷◌, ◌++◌, arith,
  ◌==◌, if◌then◌else◌, length, get_elem?, All,
}
use dapper_lite.Core.{Span, SpanPtr}
use dapper_lite.Hierarchy.{Heap, modify}

-- A field of the span at an address, if there is one.
abbrev pub field : {A : Type 0} → (Span → A) → Heap → ℕ → Option A
field g heap p = Option.map g (get_elem? heap p)

abbrev pub next_of : Heap → ℕ → Option SpanPtr
next_of = field (λ s. s.next_sibling)

pub length-modify : (heap : Heap) (p : ℕ) (f : Span → Span) → length (modify heap p f) ≡ length heap
length-modify [] p f = refl
length-modify (s ∷ heap) zero f = refl
length-modify (s ∷ heap) (suc p) f = ap suc (length-modify heap p f)

pub get-modify :
    (heap : Heap) (p q : ℕ) (f : Span → Span)
    → get_elem? (modify heap p f) q
      ≡ (if p == q then Option.map f (get_elem? heap q) else get_elem? heap q)
get-modify [] p q f = ground arith
get-modify (s ∷ heap) zero zero f = refl
get-modify (s ∷ heap) zero (suc q) f = ground arith
get-modify (s ∷ heap) (suc p) zero f = ground arith
get-modify (s ∷ heap) (suc p) (suc q) f = ground (arith, get-modify heap p q f)

-- A write that leaves a field alone.
pub field-modify :
    {A : Type 0} (g : Span → A) (f : Span → Span)
    → ((s : Span) → g (f s) ≡ g s)
    → (heap : Heap) (p q : ℕ) → field g (modify heap p f) q ≡ field g heap q
field-modify g f same [] p q = refl
field-modify g f same (s ∷ heap) zero zero = ap some (same s)
field-modify g f same (s ∷ heap) zero (suc q) = refl
field-modify g f same (s ∷ heap) (suc p) zero = refl
field-modify g f same (s ∷ heap) (suc p) (suc q) = field-modify g f same heap p q

pub field-modify_ne :
    {A : Type 0} (g : Span → A) (f : Span → Span) (heap : Heap) (p q : ℕ)
    → p ≢ q
    → field g (modify heap p f) q ≡ field g heap q
field-modify_ne g f [] p q h = refl
field-modify_ne g f (s ∷ heap) zero zero h = absurd (h refl)
field-modify_ne g f (s ∷ heap) zero (suc q) h = refl
field-modify_ne g f (s ∷ heap) (suc p) zero h = refl
field-modify_ne g f (s ∷ heap) (suc p) (suc q) h = field-modify_ne g f heap p q (λ e. h (ap suc e))

pub field-modify_self :
    {A : Type 0} (g : Span → A) (f : Span → Span) (v : A)
    → ((s : Span) → g (f s) ≡ v)
    → (heap : Heap) (p : ℕ) → p < length heap
    → field g (modify heap p f) p ≡ some v
field-modify_self g f v new [] p h = absurd (omega arith)
field-modify_self g f v new (s ∷ heap) zero h = ap some (new s)
field-modify_self g f v new (s ∷ heap) (suc p) h = field-modify_self g f v new heap p (omega arith)

pub at : (heap : Heap) (p : ℕ) → p < length heap → (s : Span) × (get_elem? heap p ≡ some s)
at [] p h = absurd (omega arith)
at (s ∷ heap) zero h = (s, refl)
at (s ∷ heap) (suc p) h = at heap p (omega arith)

pub get-append :
    (heap : Heap) (s : Span) (p : ℕ)
    → p < length heap
    → get_elem? (heap ++ (s ∷ [])) p ≡ get_elem? heap p
get-append [] s p h = absurd (omega arith)
get-append (t ∷ heap) s zero h = refl
get-append (t ∷ heap) s (suc p) h = get-append heap s p (omega arith)

pub get-append_last : (heap : Heap) (s : Span) → get_elem? (heap ++ (s ∷ [])) (length heap) ≡ some s
get-append_last [] s = refl
get-append_last (t ∷ heap) s = get-append_last heap s

-- From `ptr` a link leads through the spans `xs` to NULL.
abbrev pub Chain : (Span → SpanPtr) → Heap → SpanPtr → List ℕ → Type 0
Chain link heap ptr [] = ptr ≡ none
Chain link heap ptr (x ∷ xs) =
    (ptr ≡ some x) × (nxt : SpanPtr) × (field link heap x ≡ some nxt) × Chain link heap nxt xs

pub Chain-frame :
    (link : Span → SpanPtr) (heap heap' : Heap) (ptr : SpanPtr) (xs : List ℕ)
    → All (λ x. field link heap' x ≡ field link heap x) xs
    → Chain link heap ptr xs
    → Chain link heap' ptr xs
Chain-frame link heap heap' ptr [] same c = c
Chain-frame link heap heap' ptr (x ∷ xs) same (e, nxt, at_x, rest) =
    (e, nxt, same.0 ∙ at_x, Chain-frame link heap heap' nxt xs same.1 rest)

-- The numbers from `lo` on, each larger than the one before.
abbrev pub Ascends : ℕ → List ℕ → Type 0
Ascends lo [] = Unit {0}
Ascends lo (x ∷ xs) = (lo ≤ x) × Ascends (suc x) xs

pub Ascends-snoc :
    (lo : ℕ) (xs : List ℕ) (k : ℕ)
    → Ascends lo xs
    → All (λ x. x < k) xs
    → lo ≤ k
    → Ascends lo (xs ++ (k ∷ []))
Ascends-snoc lo [] k a b h = (h, tt)
Ascends-snoc lo (x ∷ xs) k a b h = (a.0, Ascends-snoc (suc x) xs k a.1 b.1 (omega (arith, b.0)))

pub All-map : {P Q : ℕ → Type 0} (xs : List ℕ) → ((x : ℕ) → P x → Q x) → All P xs → All Q xs
All-map [] f a = tt
All-map (x ∷ xs) f a = (f x a.0, All-map xs f a.1)

pub All-snoc : (P : ℕ → Type 0) (xs : List ℕ) (k : ℕ) → All P xs → P k → All P (xs ++ (k ∷ []))
All-snoc P [] k a p = (p, tt)
All-snoc P (x ∷ xs) k a p = (a.0, All-snoc P xs k a.1 p)
