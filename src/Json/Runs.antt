-- ===== src/Json/Runs.antt =====
-- The readers over texts and tokens that are put together.
use dapper_lite.Prelude.{ℕ, ◌≡◌, refl, ap, ◌∙◌, sym, none, some, List, [], ◌∷◌, ◌++◌, append_assoc}
use dapper_lite.Json.Lexer.{Token, Mode, Move, put_all, and_then, next_move, run}
use dapper_lite.Json.Parser.{State, step, feed, then_state}

put_all-and_then :
    (ts : List Token) (m : Move) (f : Mode → Move)
    → put_all ts (and_then m f) ≡ and_then (put_all ts m) f
put_all-and_then ts none f = refl
put_all-and_then ts (some (us, n)) f = put_all-put_all ts us (f n)
  where
    put_all-put_all :
        (ts us : List Token) (m : Move) → put_all ts (put_all us m) ≡ put_all (ts ++ us) m
    put_all-put_all ts us none = refl
    put_all-put_all ts us (some (vs, n)) = ap (λ ws. some (ws, n)) (sym (append_assoc ts us vs))

run-append_onto :
    (move : Move) (a b : List ℕ)
    → ((n : Mode) → run n (a ++ b) ≡ and_then (run n a) (λ k. run k b))
    → and_then move (λ n. run n (a ++ b)) ≡ and_then (and_then move (λ n. run n a)) (λ k. run k b)
run-append_onto none a b h = refl
run-append_onto (some (ts, n)) a b h =
    ap (put_all ts) (h n) ∙ put_all-and_then ts (run n a) (λ k. run k b)

pub put_all-nil : (m : Move) → put_all [] m ≡ m
put_all-nil none = refl
put_all-nil (some (ts, n)) = refl

run-append : (m : Mode) (a b : List ℕ) → run m (a ++ b) ≡ and_then (run m a) (λ k. run k b)
unfolding run
run-append m [] b = sym (put_all-nil (run m b))
run-append m (c ∷ a) b = run-append_onto (next_move m c) a b (λ n. run-append n a b)

-- From mode `m`, the bytes finish the tokens and lead to mode `n`.
pub record Runs (m : Mode) (bytes : List ℕ) (ts : List Token) (n : Mode) : Type 0 where
  pub runs : run m bytes ≡ some (ts, n)

pub Runs-nil : {m : Mode} → Runs m [] [] m
unfolding run
Runs-nil = record { runs = refl }

pub Runs-append :
    {m n k : Mode} {a b : List ℕ} {ts us : List Token}
    → Runs m a ts n
    → Runs n b us k
    → Runs m (a ++ b) (ts ++ us) k
Runs-append {m = m} {a = a} {b = b} h g = record {
  runs = rw (run-append m a b, h.runs, g.runs) refl;
}

-- A text that is known, and what follows it.
pub Runs-literal :
    {m n k : Mode} {b : List ℕ} {ts us : List Token} (a : List ℕ)
    → run m a ≡ some (ts, n)
    → Runs n b us k
    → Runs m (a ++ b) (ts ++ us) k
Runs-literal a h g = Runs-append (record { runs = h }) g

feed-append_onto :
    (o : _) (ts us : List Token)
    → ((s : State) → feed s (ts ++ us) ≡ then_state (feed s ts) (λ n. feed n us))
    → then_state o (λ s. feed s (ts ++ us))
      ≡ then_state (then_state o (λ s. feed s ts)) (λ n. feed n us)
feed-append_onto none ts us h = refl
feed-append_onto (some s) ts us h = h s

feed-append :
    (s : State) (ts us : List Token) → feed s (ts ++ us) ≡ then_state (feed s ts) (λ n. feed n us)
unfolding feed
feed-append s [] us = refl
feed-append s (t ∷ ts) us = feed-append_onto (step s t) ts us (λ n. feed-append n ts us)

pub feed-both :
    (s t u : State) (ts us : List Token)
    → feed s ts ≡ some t
    → feed t us ≡ some u
    → feed s (ts ++ us) ≡ some u
feed-both s t u ts us h g = rw (feed-append, h, g) refl

-- A part with its last token, and what follows.
pub feed-last :
    (s t u : State) (ts : List Token) (last : Token) (us : List Token)
    → feed s (ts ++ (last ∷ [])) ≡ some t
    → feed t us ≡ some u
    → feed s (ts ++ (last ∷ us)) ≡ some u
feed-last s t u ts last us h g =
    ap (feed s) (sym (append_assoc ts (last ∷ []) us)) ∙ feed-both s t u (ts ++ (last ∷ [])) us h g
