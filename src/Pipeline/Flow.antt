-- ===== src/Pipeline/Flow.antt =====
-- What becomes of the records that arrive.
use e_trace_gen_e_bpfevent_t.Base.{
  subst, ◌⊎◌, if_keeps, map, if_keeps, ℕ, ◌+◌, ◌^◌, ◌<◌, ◌≡◌, refl, ap, sym, ◌∙◌, inl, inr, ◌==◌,
  if◌then◌else◌, Bool-cases, Option-cases, List, [], ◌∷◌, ◌++◌, none, some, length, All, u64, arith,
}
use e_trace_gen_e_bpfevent_t.Schema.{Event, header}
use e_trace_gen_e_bpfevent_t.Kernel.Sound.{IsTagged}
use e_trace_gen_e_bpfevent_t.Util.Proc.{Proc}
use e_trace_gen_e_bpfevent_t.Model.Normalizer.{normalize}
use e_trace_gen_e_bpfevent_t.Registry.Table.{EntityRegistry}
use e_trace_gen_e_bpfevent_t.Registry.Ingest.{ingest}
use e_trace_gen_e_bpfevent_t.Sink.File.{JsonSink, FileSystem, write}
use e_trace_gen_e_bpfevent_t.Decoder.Decode.{decode}
use e_trace_gen_e_bpfevent_t.Decoder.Encode.{encode, IsWire}
use e_trace_gen_e_bpfevent_t.Decoder.Accepted.{decode-encode}
use e_trace_gen_e_bpfevent_t.Pipeline.Callback.{
  allow, Metrics, Pipeline, Arrival, on_event, on_decoded, on_raw, on_all, is_self_event,
  increment_received, increment_decoded, increment_dropped,
}

small_add : (n : ℕ) → n + 1 < 2 ^ 64 → u64 (n + 1) ≡ n + 1
small_add n h = omega (arith, h)

-- The metrics count one record more, decoded or dropped.
abbrev pub IsCounted : Metrics → Metrics → Type 0
IsCounted m m' =
    (m'.received ≡ u64 (m.received + 1))
    × (((m'.decoded ≡ u64 (m.decoded + 1)) × (m'.dropped ≡ m.dropped))
        ⊎ ((m'.decoded ≡ m.decoded) × (m'.dropped ≡ u64 (m.dropped + 1))))

on_event-metrics :
    (self_tgid : ℕ) (proc : Proc) (fs : FileSystem) (event : Event) (p : Pipeline)
    → (on_event self_tgid proc fs event p).metrics ≡ p.metrics
unfolding on_event
on_event-metrics self_tgid proc fs event p =
    if_keeps (λ (q : Pipeline). q.metrics ≡ p.metrics) (is_self_event event self_tgid) refl refl

on_raw-none :
    (self_tgid : ℕ) (a : Arrival) (p : Pipeline)
    → decode a.raw ≡ none
    → on_raw self_tgid a p ≡ record p { metrics = increment_dropped (increment_received p.metrics) }
unfolding on_raw on_decoded
on_raw-none self_tgid a p is = rw is refl

on_raw-some :
    (self_tgid : ℕ) (a : Arrival) (p : Pipeline) (event : Event)
    → decode a.raw ≡ some event
    → on_raw self_tgid a p
      ≡ on_event self_tgid a.proc a.fs event
          (record p { metrics = increment_decoded (increment_received p.metrics) })
unfolding on_raw on_decoded
on_raw-some self_tgid a p event is = rw is refl

on_raw-IsCounted :
    (self_tgid : ℕ) (a : Arrival) (p : Pipeline)
    → IsCounted p.metrics (on_raw self_tgid a p).metrics
on_raw-IsCounted self_tgid a p = elim (Option-cases (decode a.raw)) [
  | inl short ↦ rw (on_raw-none self_tgid a p short) (refl, inr (refl, refl))
  | inr (event, is) ↦
      rw
        (
          on_raw-some self_tgid a p event is,
          on_event-metrics self_tgid a.proc a.fs event
              (record p { metrics = increment_decoded (increment_received p.metrics) }),
        )
        (refl, inl (refl, refl))
]

-- Every record that arrives is counted once as received, and once as decoded or as dropped. The
-- counters agree before and do not wrap.
pub on_all-counts :
    (self_tgid : ℕ) (arrivals : List Arrival) (p : Pipeline)
    → p.metrics.decoded + p.metrics.dropped ≡ p.metrics.received
    → p.metrics.received + length arrivals < 2 ^ 64
    → ((on_all self_tgid arrivals p).metrics.received ≡ p.metrics.received + length arrivals)
      × ((on_all self_tgid arrivals p).metrics.decoded
            + (on_all self_tgid arrivals p).metrics.dropped
          ≡ (on_all self_tgid arrivals p).metrics.received)
unfolding on_all
on_all-counts self_tgid [] p agree space = (omega arith, agree)
on_all-counts self_tgid (a ∷ rest) p agree space =
    let (received, one) = on_raw-IsCounted self_tgid a p in
    let now = received ∙ small_add p.metrics.received (omega (arith, space)) in
    let (all, same) =
      on_all-counts self_tgid rest (on_raw self_tgid a p)
        (elim one [
          | inl (dec, drop) ↦ omega (arith, now, agree, space, dec, drop)
          | inr (dec, drop) ↦ omega (arith, now, agree, space, dec, drop)
        ])
        (omega (arith, now, space)) in
    (omega (arith, all, now), same)

-- A record with what follows it in the bytes that arrive, and the system at the time.
pub record Delivery : Type 0 where
  pub event : Event
  pub trailing : List ℕ
  pub proc : Proc
  pub fs : FileSystem

abbrev pub arrival_of : Delivery → Arrival
arrival_of d = record { raw = encode d.event ++ d.trailing; proc = d.proc; fs = d.fs }

abbrev pub IsDeliverable : Delivery → Type 0
IsDeliverable d = IsTagged d.event × IsWire d.event

-- The specification: the registry takes in each event of another process, and the sink writes it.
abbrev pub observe : ℕ → Delivery → EntityRegistry × JsonSink → EntityRegistry × JsonSink
observe self_tgid d (registry, sink) =
    let canonical = ingest d.proc (normalize d.event) registry in
    if (header d.event).tgid == self_tgid
    then (registry, sink)
    else (canonical.registry, write d.fs canonical.event canonical.subject_process sink)

pub observe_all : ℕ → List Delivery → EntityRegistry × JsonSink → EntityRegistry × JsonSink
observe_all self_tgid [] known = known
observe_all self_tgid (d ∷ rest) known = observe_all self_tgid rest (observe self_tgid d known)

on_event-observe :
    (self_tgid : ℕ) (d : Delivery) (p : Pipeline)
    → (
      (on_event self_tgid d.proc d.fs d.event p).registry,
      (on_event self_tgid d.proc d.fs d.event p).sink,
    )
      ≡ observe self_tgid d (p.registry, p.sink)
unfolding on_event is_self_event allow
on_event-observe self_tgid d p = elim (Bool-cases ((header d.event).tgid == self_tgid)) [
  | inl self ↦ rw self refl
  | inr other ↦ rw other refl
]

-- The registry and the sink of the specification, every record decoded, and none dropped.
abbrev pub IsObserved : ℕ → List Delivery → Pipeline → Pipeline → Type 0
IsObserved self_tgid ds p end =
    ((end.registry, end.sink) ≡ observe_all self_tgid ds (p.registry, p.sink))
    × (end.metrics.decoded ≡ p.metrics.decoded + length ds)
    × (end.metrics.dropped ≡ p.metrics.dropped)

-- Whole records with values of their types, each followed by any bytes, are all decoded, none is
-- dropped, and the registry and the sink are those of the specification: each event of another
-- process is taken in and written in the order of arrival, and an event of the collector changes
-- neither. The counter of decoded records does not wrap.
pub on_all-observe :
    (self_tgid : ℕ) (ds : List Delivery) (p : Pipeline)
    → All IsDeliverable ds
    → p.metrics.decoded + length ds < 2 ^ 64
    → IsObserved self_tgid ds p (on_all self_tgid (map arrival_of ds) p)
unfolding on_all observe_all
on_all-observe self_tgid [] p whole space = (refl, omega arith, refl)
on_all-observe self_tgid (d ∷ ds) p ((tagged, wire), whole) space =
    let counted : Pipeline = record p {
      metrics = increment_decoded (increment_received p.metrics);
    } in
    let q = on_event self_tgid d.proc d.fs d.event counted in
    let kept = on_event-metrics self_tgid d.proc d.fs d.event counted in
    let is =
      on_raw-some self_tgid (arrival_of d) p d.event
        (decode-encode d.event d.trailing tagged wire) in
    let decoded = ap (λ m. m.decoded) kept ∙ small_add p.metrics.decoded (omega (arith, space)) in
    let (known, dec, drop) = on_all-observe self_tgid ds q whole (omega (arith, decoded, space)) in
    subst (λ x. IsObserved self_tgid (d ∷ ds) p (on_all self_tgid (map arrival_of ds) x)) (sym is)
      (
        known ∙ ap (observe_all self_tgid ds) (on_event-observe self_tgid d counted),
        omega (arith, dec, decoded),
        drop ∙ ap (λ m. m.dropped) kept,
      )
