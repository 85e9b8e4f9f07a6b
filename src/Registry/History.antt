-- ===== src/Registry/History.antt =====
-- What holds of the registry after any events.
use e_trace_gen_e_bpfevent_t.Base.{
  IsUnique, if_keeps, ℕ, ◌+◌, ◌*◌, ◌≤◌, ◌<◌, ◌^◌, ◌≡◌, ◌⊎◌, inl, inr, ◌&&◌, not, ◌==◌, List, [],
  ◌∷◌, some, length, find, arith, refl, Bool-cases, Option-cases,
}
use e_trace_gen_e_bpfevent_t.Util.Proc.{Proc}
use e_trace_gen_e_bpfevent_t.Model.Canonical.{CanonicalEvent, CanonicalAction, EntityKind}
use e_trace_gen_e_bpfevent_t.Registry.Entity.{is_empty, ProcessEntity}
use e_trace_gen_e_bpfevent_t.Registry.Table.{
  EntityRegistry, find_process, store, resolve_process, empty_registry,
}
use e_trace_gen_e_bpfevent_t.Registry.Ingest.{ingest, ingest_all, lifecycle, fall_back, is_exec}
use e_trace_gen_e_bpfevent_t.Registry.Consistent.{
  IsConsistent, IsLater, IsBounded, IsLater-refl, NotExited,
}
use e_trace_gen_e_bpfevent_t.Registry.Evolution.{
  Evolves, Evolves-refl, Evolves-trans, IsOpen-NotExited, store-Evolves, mark_exited-Evolves,
}
use e_trace_gen_e_bpfevent_t.Registry.Resolving.{
  resolve_process-Evolves, resolve_process-IsOpen, resolve_child-Evolves,
}

Evolves-more : {n m : ℕ} {r s : EntityRegistry} → n ≤ m → Evolves n r s → Evolves m r s
Evolves-more fewer h = record {
  consistent = h.consistent;
  later = h.later;
  bounded = h.bounded;
  few = omega (arith, h.few, fewer);
}

pub fall_back_cases :
    (id : ℕ) (hint : List ℕ) (s : EntityRegistry)
    → (fall_back id hint s ≡ s)
      ⊎ ((e : ProcessEntity) × (find_process id s ≡ some e)
          × (fall_back id hint s ≡ store id (record e { exec_path = hint }) s))
unfolding fall_back
fall_back_cases id hint s = elim (Option-cases (find_process id s)) [
  | inl missing ↦ inl (ground arith)
  | inr (e, found) ↦ elim (Bool-cases (not (is_empty hint) && is_empty e.exec_path)) [
    | inl falls ↦ inr (e, found, ground arith)
    | inr stays ↦ inl (ground arith)
  ]
]

fall_back-Evolves :
    {n : ℕ} {r s : EntityRegistry} (id : ℕ) (hint : List ℕ)
    → IsConsistent r
    → NotExited r id
    → Evolves n r s
    → Evolves n r (fall_back id hint s)
fall_back-Evolves {s = s} id hint c fresh h = elim (fall_back_cases id hint s) [
  | inl same ↦ rw same h
  | inr (e, found, same) ↦
      rw same (store-Evolves id c fresh h e (record e { exec_path = hint }) found refl refl refl)
]

lifecycle-Evolves :
    {r s : EntityRegistry} (proc : Proc) (id : ℕ) (ev : CanonicalEvent) (action : CanonicalAction)
    → IsConsistent r
    → NotExited r id
    → r.next_id + 2 < 2 ^ 64
    → Evolves 1 r s
    → Evolves 2 r (lifecycle proc id ev action s).1
unfolding lifecycle
lifecycle-Evolves {r = r} {s = s} proc id ev CanonicalAction.process_started c fresh space h =
    if_keeps (λ (p : CanonicalEvent × EntityRegistry). Evolves 2 r p.1)
      (not (ev.object.child_pid == 0))
      (Evolves-trans c h (
        resolve_child-Evolves proc ev.object.child_pid id ev.actor ev.ts_ns s h.consistent h.bounded
          (omega (arith, h.few, space))))
      (Evolves-more (omega arith) h)
lifecycle-Evolves proc id ev CanonicalAction.process_exited c fresh space h =
    Evolves-more (omega arith) (mark_exited-Evolves id c fresh h ev.ts_ns ev.outcome)
lifecycle-Evolves proc id ev _ c fresh space h = Evolves-more (omega arith) h

-- What `Ingest` does once the subject is resolved.
abbrev pub rest_of : Proc → CanonicalEvent → ℕ → EntityRegistry → CanonicalEvent × EntityRegistry
rest_of proc ev id s =
    let subject = record ev { subject = record { kind = EntityKind.process; id = id } } in
    let lived = lifecycle proc id subject ev.action s in
    (lived.0, fall_back id ev.exec_path_hint lived.1)

pub rest_of-Evolves :
    {r s : EntityRegistry} (proc : Proc) (ev : CanonicalEvent) (id : ℕ)
    → IsConsistent r
    → NotExited r id
    → r.next_id + 2 < 2 ^ 64
    → Evolves 1 r s
    → Evolves 2 r (rest_of proc ev id s).1
rest_of-Evolves proc ev id c fresh space h = fall_back-Evolves id ev.exec_path_hint c fresh (
    lifecycle-Evolves proc id
      (record ev { subject = record { kind = EntityKind.process; id = id } }) ev.action c fresh
      space h)

pub ingest-Evolves :
    (proc : Proc) (ev : CanonicalEvent) (r : EntityRegistry)
    → IsConsistent r
    → IsBounded r
    → r.next_id + 2 < 2 ^ 64
    → Evolves 2 r (ingest proc ev r).registry
unfolding ingest
ingest-Evolves proc ev r c b space =
    let rich = is_exec ev.action in
    let resolved = resolve_process proc ev.actor ev.ts_ns rich r in
    let fresh =
      IsOpen-NotExited r r resolved.0 c (IsLater-refl r)
        (resolve_process-IsOpen proc ev.actor ev.ts_ns rich r c b) in
    rest_of-Evolves proc ev resolved.0 c fresh space
      (resolve_process-Evolves proc ev.actor ev.ts_ns rich r c b (omega (arith, space)))

ingest_all-Evolves :
    (events : List (Proc × CanonicalEvent)) (r : EntityRegistry)
    → IsConsistent r
    → IsBounded r
    → r.next_id + 2 * length events < 2 ^ 64
    → Evolves (2 * length events) r (ingest_all events r)
unfolding ingest_all
ingest_all-Evolves [] r c b space = Evolves-refl r c b
ingest_all-Evolves ((proc, ev) ∷ rest) r c b space =
    let h = ingest-Evolves proc ev r c b (omega (arith, space)) in
    Evolves-more (omega arith) (
      Evolves-trans c h (
        ingest_all-Evolves rest (ingest proc ev r).registry h.consistent h.bounded
          (omega (arith, h.few, space))))

empty_registry-IsConsistent : IsConsistent empty_registry
unfolding find IsUnique
empty_registry-IsConsistent = record {
  numbered = λ id e found. cc found;
  indexed = λ k id held. cc held;
  alive = λ id e found live. cc found;
  started = omega arith;
  unique = tt;
}

-- From an empty registry, after any events (fewer than 2^63 - 1, so that the ids do not wrap), the
-- registry is consistent and has at most 8192 entities: each stands under its own id, and the index
-- has exactly those that have not exited, by their keys.
pub ingest_all-IsConsistent :
    (events : List (Proc × CanonicalEvent))
    → 1 + 2 * length events < 2 ^ 64
    → IsConsistent (ingest_all events empty_registry) × IsBounded (ingest_all events empty_registry)
ingest_all-IsConsistent events space =
    let h =
      ingest_all-Evolves events empty_registry empty_registry-IsConsistent (omega arith) space in
    (h.consistent, h.bounded)

-- From a consistent registry of at most 8192 entities, as long as the ids do not wrap: whatever
-- events follow, an id that was given and has no entity gets none, and an entity that has exited
-- stays exactly as it is or is evicted.
pub ingest_all-IsLater :
    (events : List (Proc × CanonicalEvent)) (r : EntityRegistry)
    → IsConsistent r
    → IsBounded r
    → r.next_id + 2 * length events < 2 ^ 64
    → IsLater r (ingest_all events r)
ingest_all-IsLater events r c b space = (ingest_all-Evolves events r c b space).later
