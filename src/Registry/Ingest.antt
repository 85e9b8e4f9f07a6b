-- ===== src/Registry/Ingest.antt =====
-- src/registry/entity_registry.cpp: `Ingest`, and events one after the other.
use e_trace_gen_e_bpfevent_t.Base.{
  ℕ, Bool, true, false, not, ◌&&◌, ◌==◌, if◌then◌else◌, List, [], ◌∷◌, Option, none, some,
}
use e_trace_gen_e_bpfevent_t.Util.Proc.{Proc}
use e_trace_gen_e_bpfevent_t.Model.Canonical.{EntityKind, CanonicalAction, CanonicalEvent}
use e_trace_gen_e_bpfevent_t.Registry.Entity.{ProcessEntity, is_empty}
use e_trace_gen_e_bpfevent_t.Registry.Table.{
  EntityRegistry, find_process, store, mark_exited, resolve_process, resolve_child,
}

-- The event with its references, the entity of its subject, and the registry after it.
pub record Ingested : Type 0 where
  pub event : CanonicalEvent
  pub subject_process : Option ProcessEntity
  pub registry : EntityRegistry

abbrev pub is_exec : CanonicalAction → Bool
is_exec CanonicalAction.process_execed = true
is_exec _ = false

-- The exit or the child of an event whose subject is resolved, with the event's object reference.
unfoldable pub lifecycle :
    Proc → ℕ → CanonicalEvent → CanonicalAction → EntityRegistry → CanonicalEvent × EntityRegistry
unfolding mark_exited resolve_child
lifecycle proc id ev CanonicalAction.process_exited r = (ev, mark_exited id ev.ts_ns ev.outcome r)
lifecycle proc id ev CanonicalAction.process_started r =
    let child = resolve_child proc ev.object.child_pid id ev.actor ev.ts_ns r in
    if not (ev.object.child_pid == 0)
    then (record ev { object_ref = record { kind = EntityKind.process; id = child.0 } }, child.1)
    else (ev, r)
lifecycle proc id ev _ r = (ev, r)

-- The captured path stands in where /proc gave none.
unfoldable pub fall_back : ℕ → List ℕ → EntityRegistry → EntityRegistry
fall_back id hint r = elim (find_process id r) [
  | none ↦ r
  | some e ↦
      if not (is_empty hint) && is_empty e.exec_path
      then store id (record e { exec_path = hint }) r
      else r
]

unfoldable pub ingest : Proc → CanonicalEvent → EntityRegistry → Ingested
unfolding resolve_process lifecycle fall_back
ingest proc ev r =
    let resolved = resolve_process proc ev.actor ev.ts_ns (is_exec ev.action) r in
    let subject = record ev { subject = record { kind = EntityKind.process; id = resolved.0 } } in
    let lived = lifecycle proc resolved.0 subject ev.action resolved.1 in
    let last = fall_back resolved.0 ev.exec_path_hint lived.1 in
    record { event = lived.0; subject_process = find_process resolved.0 last; registry = last }

-- Events in turn, each with what /proc answers at the time.
unfoldable pub ingest_all : List (Proc × CanonicalEvent) → EntityRegistry → EntityRegistry
unfolding ingest
ingest_all [] r = r
ingest_all ((proc, ev) ∷ rest) r = ingest_all rest (ingest proc ev r).registry
