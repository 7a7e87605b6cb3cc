-- ===== src/Exporter/Accounting.antt =====
-- What becomes of the spans that are submitted.
use dapper_lite.Prelude.{
  ℕ, ◌+◌, ◌-◌, ◌%◌, ◌^◌, ◌≡◌, refl, ap, sym, Bool, true, false, ◌⊎◌, inl, inr, List, [], ◌∷◌, ◌++◌,
  arith, if◌then◌else◌, length, append_assoc, append-nil, length-append,
}
use dapper_lite.Prelude.Outcome.{Outcome, ok, failed, fault, map_ok, Safe}
use dapper_lite.ByteOrder.{Host}
use dapper_lite.Core.{Span}
use dapper_lite.Wire.Layout.{IsSpan, span_bytes}
use dapper_lite.Ring
use dapper_lite.Ring.{Ring, max_payload_size}
use dapper_lite.Ring.Queue.{put, get, put_ok, get_ok, get_failed}
use dapper_lite.Ring.Contents.{IsValid, contents}
use dapper_lite.Ring.Refine.{push_refines, pop_refines}
use dapper_lite.Exporter.{
  SinkType, frame, submit_result, Exporter, Sink, count_up, sink_write, export_bytes, submit,
}

abbrev pub Taken : Type 0
Taken = List (List ℕ × Bool)

abbrev pub bytes_of : Taken → List (List ℕ)
bytes_of [] = []
bytes_of ((b, done) ∷ t) = b ∷ bytes_of t

-- What the successful writes among them sent.
abbrev pub sent_of : Host → SinkType → Taken → List (List ℕ)
sent_of host kind [] = []
sent_of host kind ((b, done) ∷ t) =
    let rest = sent_of host kind t in if done then (frame host kind b ∷ rest) else rest

-- An account of all that happened up to the state `exp`: the layouts that the ring accepted, those
-- that the thread took out since, in the same order, each with the success of its write, and the
-- number of spans that found no room.
pub record Account (host : Host) (accepted : List (List ℕ)) (dropped : ℕ) (exp : Exporter)
    : Type 0 where
  pub taken : Taken
  pub valid : IsValid exp.ring
  pub order : accepted ≡ bytes_of taken ++ contents host exp.ring
  pub sent : exp.sink.sent ≡ sent_of host exp.sink.kind taken
  pub submitted_count : exp.spans_submitted ≡ (length accepted + dropped) % 2 ^ 64
  pub exported_count : exp.spans_exported ≡ length exp.sink.sent % 2 ^ 64
  pub dropped_count : exp.spans_dropped ≡ dropped % 2 ^ 64

bytes_of-snoc :
    (t : Taken) (b : List ℕ) (done : Bool)
    → bytes_of (t ++ ((b, done) ∷ [])) ≡ bytes_of t ++ (b ∷ [])
bytes_of-snoc [] b done = refl
bytes_of-snoc ((c, d) ∷ t) b done = ap (λ x. c ∷ x) (bytes_of-snoc t b done)

sent_of-snoc :
    (host : Host) (kind : SinkType) (t : Taken) (b : List ℕ) (done : Bool)
    → sent_of host kind (t ++ ((b, done) ∷ []))
      ≡ sent_of host kind t ++ (if done then (frame host kind b ∷ []) else [])
sent_of-snoc host kind [] b true = refl
sent_of-snoc host kind [] b false = refl
sent_of-snoc host kind ((c, true) ∷ t) b done =
    ap (λ x. frame host kind c ∷ x) (sent_of-snoc host kind t b done)
sent_of-snoc host kind ((c, false) ∷ t) b done = sent_of-snoc host kind t b done

exported_step :
    (n : ℕ) (sent : List (List ℕ)) (done : Bool) (x : List ℕ)
    → n ≡ length sent % 2 ^ 64
    → (if done then count_up n else n) ≡ length (sent ++ (if done then (x ∷ []) else [])) % 2 ^ 64
exported_step n sent true x h = omega (arith, length-append {A = List ℕ} sent (x ∷ []))
exported_step n sent false x h = rw append-nil h

module _ (host : Host) where
  -- A submitted span is accepted or dropped.
  abbrev pub Counted : List (List ℕ) → ℕ → Span → Exporter → Type 0
  Counted accepted dropped span exp =
      Account host (accepted ++ (span_bytes span span.sampled max_payload_size ∷ [])) dropped exp
      ⊎ Account host accepted (dropped + 1) exp

  submit_step :
      (accepted : List (List ℕ)) (dropped : ℕ) (exp : Exporter) (span : Span) (r : Outcome Ring)
      → Account host accepted dropped exp
      → map_ok (contents host) r
        ≡ put
            (exp.ring.capacity - 1)
            (contents host exp.ring)
            (span_bytes span span.sampled max_payload_size)
      → Safe (λ rb. IsValid rb × (rb.capacity ≡ exp.ring.capacity)) r
      → Safe (Counted accepted dropped span) (submit_result exp r)
  unfolding submit_result
  submit_step accepted dropped exp span (ok rb) a e v =
      let x = span_bytes span span.sampled max_payload_size in
      let more : contents host rb ≡ contents host exp.ring ++ (x ∷ []) = put_ok _ _ x e in
      inl (record {
        taken = a.taken;
        valid = v.0;
        order =
            rw (more, a.order) (append_assoc (bytes_of a.taken) (contents host exp.ring) (x ∷ []));
        sent = a.sent;
        submitted_count =
            omega (arith, a.submitted_count, length-append {A = List ℕ} accepted (x ∷ []));
        exported_count = a.exported_count;
        dropped_count = a.dropped_count;
      })
  submit_step accepted dropped exp span failed a e v = inr (record {
    taken = a.taken;
    valid = a.valid;
    order = a.order;
    sent = a.sent;
    submitted_count = omega (arith, a.submitted_count);
    exported_count = a.exported_count;
    dropped_count = omega (arith, a.dropped_count);
  })
  submit_step accepted dropped exp span fault a e v = absurd v

  pub submit-Account :
      (accepted : List (List ℕ)) (dropped : ℕ) (exp : Exporter) (span : Span)
      → Account host accepted dropped exp
      → IsSpan span
      → Safe (Counted accepted dropped span) (submit host exp span)
  unfolding submit
  submit-Account accepted dropped exp span a h =
      let p = push_refines host a.valid span span.sampled h in
      submit_step accepted dropped exp span (Ring.push host exp.ring span span.sampled) a p.0 p.1

  sink_write_sent :
      (accepts : ℕ → Bool) (sink : Sink) (bytes : List ℕ)
      → let (sink', done) = sink_write host accepts sink bytes in
        (sink'.sent ≡ sink.sent ++ (if done then (frame host sink.kind bytes ∷ []) else []))
        × (sink'.kind ≡ sink.kind)
  unfolding sink_write
  sink_write_sent accepts sink bytes = ground (arith, append-nil sink.sent)

  module _ (accepts : ℕ → Bool) (accepted : List (List ℕ)) (dropped : ℕ) where
    pub export_bytes-Account :
        (exp : Exporter) (bytes : List ℕ) (rb : Ring)
        → Account host accepted dropped exp
        → IsValid rb
        → contents host exp.ring ≡ bytes ∷ contents host rb
        → Account host accepted dropped (export_bytes host accepts exp (bytes, rb))
    unfolding export_bytes
    export_bytes-Account exp bytes rb a v e =
        let w = sink_write host accepts exp.sink bytes in
        let s = sink_write_sent accepts exp.sink bytes in
        record {
          taken = a.taken ++ ((bytes, w.1) ∷ []);
          valid = v;
          order =
              rw (a.order, e, bytes_of-snoc a.taken bytes w.1)
                (sym (append_assoc (bytes_of a.taken) (bytes ∷ []) (contents host rb)));
          sent = rw (s.0, s.1, sent_of-snoc host exp.sink.kind a.taken bytes w.1, ← a.sent);
          submitted_count = a.submitted_count;
          exported_count = rw s.0 (
              exported_step exp.spans_exported exp.sink.sent w.1 (frame host exp.sink.kind bytes)
                a.exported_count);
          dropped_count = a.dropped_count;
        }

    -- What a pop leads to, in every case.
    abbrev pub Pops : Exporter → Outcome (List ℕ × Ring) → Type 0
    Pops exp failed = contents host exp.ring ≡ []
    Pops exp fault = ⊥
    Pops exp (ok q) =
        Account host accepted dropped (export_bytes host accepts exp q)
        × (contents host exp.ring ≡ q.0 ∷ contents host q.1)

    pop_cases :
        (exp : Exporter) (r : Outcome (List ℕ × Ring))
        → Account host accepted dropped exp
        → map_ok (λ q. (q.0, contents host q.1)) r ≡ get (contents host exp.ring)
        → Safe (λ q. IsValid q.1 × (q.1.capacity ≡ exp.ring.capacity)) r
        → Pops exp r
    pop_cases exp (ok (bytes, rb)) a e v =
        let m = get_ok (contents host exp.ring) e in (export_bytes-Account exp bytes rb a v.0 m, m)
    pop_cases exp failed a e v = get_failed (contents host exp.ring) e
    pop_cases exp fault a e v = absurd v

    pub pop-Pops :
        (exp : Exporter) → Account host accepted dropped exp → Pops exp (Ring.pop host exp.ring)
    pop-Pops exp a =
        let p = pop_refines host a.valid in pop_cases exp (Ring.pop host exp.ring) a p.0 p.1
