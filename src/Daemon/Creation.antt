-- ===== src/Daemon/Creation.antt =====
-- What `collector_create` of src/collector/main.c makes of an allowlist.
use dapper_lite.Prelude.{
  ℕ, ◌+◌, ◌≤◌, ◌≡◌, refl, sym, ap, ◌∙◌, true, false, Bool-cases, Option-cases, inl, inr, Option,
  none, some, List, [], ◌∷◌, ◌++◌, map, leb, ltb, ◌==◌, if◌then◌else◌, arith, length, length-append,
  append_assoc, append-nil,
}
use dapper_lite.Prelude.Int.{ℤ, pos, negsuc}
use dapper_lite.Prelude.Outcome.{Safe, Safe-bind, Safe-map, Safe-fail_if}
use dapper_lite.Collector.{TraceMap}
use dapper_lite.Collector.Config.{Config, default_bind_addr}
use dapper_lite.Receiver.{Receiver, listed, source_allowed}
use dapper_lite.Receiver.Allowlist.{source_allowed-listed}
use dapper_lite.Receiver.Create.{
  Network, tokens_from, add_sources, parse_allowed_sources, receiver_create, valid_port, or_failed,
  or_default,
}
use dapper_lite.Daemon.{Collector, collector_create}

-- The outcome has neither a fault nor a claim about its value.
abbrev Any : {A : Type 0} → A → Type 0
Any a = Unit {0}

or_failed-Safe : {A : Type 0} (o : Option A) → Safe Any (or_failed o)
or_failed-Safe none = tt
or_failed-Safe (some a) = tt

valid_port-Safe : (port : ℤ) → Safe Any (valid_port port)
valid_port-Safe (negsuc n) = tt
valid_port-Safe (pos port) = elim (Bool-cases (ltb 65535 port)) [
  | inl e ↦ rw e tt
  | inr e ↦ rw e tt
]

module _ (inet_pton : List ℕ → Option ℕ) where
  below : (n : ℕ) → leb 16 n ≡ false → n + 1 ≤ 16
  below n h = ground arith

  -- The addresses that stand for the tokens, none of which is skipped.
  Added : List ℕ → List (List ℕ) → List ℕ → Type 0
  Added allowed tokens all =
      (new : List ℕ) × (all ≡ allowed ++ new)
      × (map inet_pton tokens ≡ map some new)
      × (length all ≤ 16)

  add_sources-Added :
      (allowed : List ℕ) (tokens : List (List ℕ))
      → length allowed ≤ 16
      → Safe (Added allowed tokens) (add_sources inet_pton allowed tokens)
  unfolding add_sources Added
  add_sources-Added allowed [] h = ([], sym (append-nil allowed), refl, h)
  add_sources-Added allowed (token ∷ tokens) h =
      Safe-fail_if (Added allowed (token ∷ tokens)) (leb 16 (length allowed)) _ λ room.
        elim (Option-cases (inet_pton token)) [
          | inl e ↦ rw e tt
          | inr (a, e) ↦
              let longer = length-append allowed (a ∷ []) in
              rw e (
                Safe-map _ _ (add_sources inet_pton (allowed ++ (a ∷ [])) tokens)
                  (add_sources-Added (allowed ++ (a ∷ [])) tokens
                    (omega (arith, longer, below _ room)))
                  (λ all p. (
                    a ∷ p.0,
                    p.1 ∙ append_assoc allowed (a ∷ []) p.0,
                    rw e (ap (λ os. some a ∷ os) p.2),
                    p.3,
                  )))
        ]

  -- A list that is accepted.
  Accepted : List ℕ → List ℕ → Type 0
  Accepted list allowed =
      (map inet_pton (tokens_from [] list) ≡ map some allowed)
      × (1 ≤ length allowed)
      × (length allowed ≤ 16)

  parse_allowed_sources-Accepted :
      (list : List ℕ) → Safe (Accepted list) (parse_allowed_sources inet_pton (some list))
  unfolding parse_allowed_sources Accepted Added
  parse_allowed_sources-Accepted list =
      Safe-fail_if (Accepted list) (leb 256 (length list)) _ λ fits.
        Safe-bind (Added [] (tokens_from [] list)) (Accepted list)
          (add_sources inet_pton [] (tokens_from [] list)) _
          (add_sources-Added [] (tokens_from [] list) (omega arith))
          λ all p.
            Safe-fail_if (Accepted list) (length all == 0) _
              λ some_length. (p.2 ∙ ap (map some) (sym p.1), ground (arith, some_length), p.3)

  receiver_create-Accepted :
      (network : Network) (config : Config) (trace_map : TraceMap) (list : List ℕ)
      → config.allowed_sources ≡ some list
      → Safe
          (λ r. Accepted list r.allowed × (r.running ≡ false))
          (receiver_create inet_pton network config trace_map)
  unfolding receiver_create
  receiver_create-Accepted network config trace_map list e =
      let Q : Receiver → Type 0 = λ r. Accepted list r.allowed × (r.running ≡ false) in
      rw e (
        Safe-bind Any Q (valid_port config.port) _ (valid_port-Safe config.port) λ port _.
          Safe-bind Any Q (or_failed (inet_pton (or_default config.bind_addr default_bind_addr))) _
            (or_failed-Safe _)
            λ address _.
              Safe-bind (Accepted list) Q (parse_allowed_sources inet_pton (some list)) _
                (parse_allowed_sources-Accepted list)
                λ allowed p. Safe-fail_if Q (if network.socket then false else true) _ λ s.
                  Safe-fail_if Q (if network.bind address port then false else true) _
                    λ b. (p, refl))

-- Whatever the system answers, a collector that `collector_create` makes from a configuration with
-- an allowlist does not run yet and has an address for each of the list's tokens, in their order,
-- all of which are valid; there are 1 to 16 of them, so that it does not admit every source: it
-- admits a source only if the source is listed.
pub collector_create-Safe :
    (storage_open : List ℕ → Option (List ℕ)) (inet_pton : List ℕ → Option ℕ) (network : Network)
    (config : Config) (list : List ℕ) (source : ℕ)
    → config.allowed_sources ≡ some list
    → Safe
        (λ c.
          (map inet_pton (tokens_from [] list) ≡ map some c.receiver.allowed)
          × (1 ≤ length c.receiver.allowed)
          × (length c.receiver.allowed ≤ 16)
          × (source_allowed c.receiver source ≡ listed c.receiver.allowed source)
          × (c.running ≡ false)
          × (c.receiver.running ≡ false))
        (collector_create storage_open inet_pton network (some config))
unfolding collector_create Accepted
collector_create-Safe storage_open inet_pton network config list source e =
    let Q : Collector → Type 0 = λ c.
      (map inet_pton (tokens_from [] list) ≡ map some c.receiver.allowed)
      × (1 ≤ length c.receiver.allowed)
      × (length c.receiver.allowed ≤ 16)
      × (source_allowed c.receiver source ≡ listed c.receiver.allowed source)
      × (c.running ≡ false)
      × (c.receiver.running ≡ false) in
    Safe-bind Any Q (or_failed config.storage_path) _ (or_failed-Safe config.storage_path) λ path _.
      Safe-bind Any Q (or_failed (storage_open path)) _ (or_failed-Safe (storage_open path))
        λ log _.
          Safe-bind (λ r. Accepted inet_pton list r.allowed × (r.running ≡ false)) Q
            (receiver_create inet_pton network config _) _
            (receiver_create-Accepted inet_pton network config _ list e)
            λ r p. (p.0.0, p.0.1, p.0.2, source_allowed-listed r source p.0.1, refl, p.1)
