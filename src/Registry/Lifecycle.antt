-- ===== src/Registry/Lifecycle.antt =====
-- Exit of a process, and reuse of its number.
use e_trace_gen_e_bpfevent_t.Base.{
  ◌≤◌, ◌-◌, ◌%◌, subst, if_keeps, find-insert, ◌∙◌, ℕ, ◌+◌, ◌<◌, ◌^◌, ◌≡◌, ◌≢◌, ◌⊎◌, inl, inr, true,
  not, ◌==◌, List, none, some, arith, refl, sym, ap, Bool-cases,
}
use e_trace_gen_e_bpfevent_t.Util.Proc.{Proc, read_start_time_ticks}
use e_trace_gen_e_bpfevent_t.Registry.Entity.{ProcessEntity, key_of, key_for}
use e_trace_gen_e_bpfevent_t.Registry.Table.{
  EntityRegistry, find_process, store, mark_exited, is_reused, create_process, resolve_process,
}
use e_trace_gen_e_bpfevent_t.Registry.Resolution.{
  resolve_process-reused, resolve_process-known, retired, IsHolder,
}
use e_trace_gen_e_bpfevent_t.Registry.Consistent.{IsConsistent, IsBounded, IsLater-refl}
use e_trace_gen_e_bpfevent_t.Registry.Changes.{retire_index-processes}
use e_trace_gen_e_bpfevent_t.Registry.Evolution.{
  IsOpen-NotExited, mark_exited_found, mark_exited_missing, create_process-Evolves,
}
use e_trace_gen_e_bpfevent_t.Registry.Resolving.{
  retired-exited, mark_exited-frees, retired-frees, create_process-id, retired-Evolves,
}
use e_trace_gen_e_bpfevent_t.Model.Canonical.{CanonicalEvent, CanonicalAction, EntityKind}
use e_trace_gen_e_bpfevent_t.Registry.Ingest.{ingest, lifecycle, fall_back, is_exec}
use e_trace_gen_e_bpfevent_t.Registry.History.{rest_of, rest_of-Evolves, fall_back_cases}
use e_trace_gen_e_bpfevent_t.Registry.Subject.{IsSettled, resolve_process-IsSettled}

-- An entity with the exit that an event reports.
abbrev pub IsExitOf : CanonicalEvent → ProcessEntity → Type 0
IsExitOf ev e = (e.exited ≡ true) × (e.exit_ns ≡ ev.ts_ns) × (e.exit_code ≡ ev.outcome)

-- The key is free, and the entity of the id, if it is still there, has the exit.
abbrev pub IsOver : ℕ → ℕ → CanonicalEvent → EntityRegistry → Type 0
IsOver key id ev t =
    (t.tgid_index key ≡ none)
    × ((find_process id t ≡ none)
        ⊎ ((e : ProcessEntity) × (find_process id t ≡ some e) × IsExitOf ev e))

mark_exited-IsOver :
    (key id : ℕ) (ev : CanonicalEvent) (s : EntityRegistry)
    → IsSettled key id s
    → IsOver key id ev (mark_exited id ev.ts_ns ev.outcome s)
mark_exited-IsOver key id ev s (inr (gone, unheld)) =
    rw (mark_exited_missing id ev.ts_ns ev.outcome s gone) (unheld, inl gone)
mark_exited-IsOver key id ev s (inl (e, holder)) =
    let e' : ProcessEntity = record e {
      exited = true;
      exit_ns = ev.ts_ns;
      exit_code = ev.outcome;
    } in
    (
      mark_exited-frees key id e ev.ts_ns ev.outcome s holder,
      rw (mark_exited_found id e ev.ts_ns ev.outcome s holder.found) (
          inr (
            e',
            ground (
              arith,
              retire_index-processes (key_of e) id (store id e' s),
              find-insert id id e' s.processes_by_id,
            ),
            (refl, refl, refl),
          )),
    )

fall_back-IsOver :
    (key id : ℕ) (ev : CanonicalEvent) (hint : List ℕ) (s : EntityRegistry)
    → IsOver key id ev s
    → IsOver key id ev (fall_back id hint s)
fall_back-IsOver key id ev hint s over = elim (fall_back_cases id hint s) [
  | inl same ↦ rw same over
  | inr (e, found, same) ↦
      let e' : ProcessEntity = record e { exec_path = hint } in
      rw same (
        over.0,
        elim over.1 [
          | inl gone ↦ absurd (cc (gone, found))
          | inr (f, at, exit) ↦
              inr (e', ground (arith, find-insert id id e' s.processes_by_id), ground arith)
        ],
      )
]

lifecycle-exit :
    (proc : Proc) (id : ℕ) (ev : CanonicalEvent) (s : EntityRegistry) (action : CanonicalAction)
    → action ≡ CanonicalAction.process_exited
    → (lifecycle proc id ev action s).1 ≡ mark_exited id ev.ts_ns ev.outcome s
unfolding lifecycle
lifecycle-exit proc id ev s action is_exit = rw is_exit refl

-- After an exit event of an actor with a process or task number, the actor's key has no live entity,
-- and the event's entity, unless it has been evicted, is marked as exited with the event's time and
-- outcome. The registry before is consistent, has at most 8192 entities, and has an id left.
pub ingest-exit :
    (proc : Proc) (ev : CanonicalEvent) (r : EntityRegistry)
    → IsConsistent r
    → IsBounded r
    → r.next_id + 1 < 2 ^ 64
    → key_for ev.actor.tgid ev.actor.pid ≢ 0
    → ev.action ≡ CanonicalAction.process_exited
    → ((ingest proc ev r).registry.tgid_index (key_for ev.actor.tgid ev.actor.pid) ≡ none)
      × (((ingest proc ev r).subject_process ≡ none)
          ⊎ ((e : ProcessEntity) × ((ingest proc ev r).subject_process ≡ some e) × IsExitOf ev e))
unfolding ingest
ingest-exit proc ev r c b space named is_exit =
    let key = key_for ev.actor.tgid ev.actor.pid in
    let resolved = resolve_process proc ev.actor ev.ts_ns (is_exec ev.action) r in
    let subject : CanonicalEvent = record ev {
      subject = record { kind = EntityKind.process; id = resolved.0 };
    } in
    fall_back-IsOver key resolved.0 ev ev.exec_path_hint
      (lifecycle proc resolved.0 subject ev.action resolved.1).1
      (subst (IsOver key resolved.0 ev)
        (sym (lifecycle-exit proc resolved.0 subject resolved.1 ev.action is_exit))
        (mark_exited-IsOver key resolved.0 ev resolved.1
          (resolve_process-IsSettled proc ev.actor ev.ts_ns (is_exec ev.action) r c b space named)))

lifecycle-subject :
    (proc : Proc) (id : ℕ) (ev : CanonicalEvent) (s : EntityRegistry) (action : CanonicalAction)
    → (lifecycle proc id ev action s).0.subject ≡ ev.subject
unfolding lifecycle
lifecycle-subject proc id ev s CanonicalAction.process_started =
    if_keeps (λ (p : CanonicalEvent × EntityRegistry). p.0.subject ≡ ev.subject)
      (not (ev.object.child_pid == 0)) refl refl
lifecycle-subject proc id ev s _ = refl

-- The subject of an event is the process that it is resolved to.
ingest-subject :
    (proc : Proc) (ev : CanonicalEvent) (r : EntityRegistry)
    → (ingest proc ev r).event.subject.id
      ≡ (resolve_process proc ev.actor ev.ts_ns (is_exec ev.action) r).0
unfolding ingest
ingest-subject proc ev r =
    let resolved = resolve_process proc ev.actor ev.ts_ns (is_exec ev.action) r in
    ap (λ s. s.id)
      (lifecycle-subject proc resolved.0
        (record ev { subject = record { kind = EntityKind.process; id = resolved.0 } }) resolved.1
        ev.action)

-- No entity of the id, or one that has exited.
abbrev pub IsPast : ℕ → EntityRegistry → Type 0
IsPast id s =
    (find_process id s ≡ none)
    ⊎ ((old : ProcessEntity) × (find_process id s ≡ some old) × (old.exited ≡ true))

reused-over :
    (proc : Proc) (ev : CanonicalEvent) (r : EntityRegistry) (id : ℕ) (e : ProcessEntity)
    → IsConsistent r
    → IsBounded r
    → r.next_id + 2 < 2 ^ 64
    → key_for ev.actor.tgid ev.actor.pid ≢ 0
    → IsHolder (key_for ev.actor.tgid ev.actor.pid) id e r
    → (is_reused proc e (key_for ev.actor.tgid ev.actor.pid) ev.ts_ns).0 ≡ true
    → IsPast id (ingest proc ev r).registry
unfolding ingest
reused-over proc ev r id e c b space named holder other =
    let key = key_for ev.actor.tgid ev.actor.pid in
    let rich = is_exec ev.action in
    let is = resolve_process-reused proc ev.actor ev.ts_ns rich r id e named holder other in
    let gone = retired proc e ev.actor ev.ts_ns id r in
    let h = retired-Evolves proc ev.actor ev.ts_ns rich r c b id e holder in
    let (old, found, over) = retired-exited proc ev.actor ev.ts_ns rich r c b id e holder in
    let made = create_process proc key ev.actor ev.ts_ns gone in
    let made_h =
      create_process-Evolves proc key ev.actor ev.ts_ns refl gone
        (retired-frees proc ev.actor ev.ts_ns rich r c b id e holder) (omega (arith, h.few, space))
        h.consistent h.bounded in
    let fresh =
      IsOpen-NotExited gone gone made.0 h.consistent (IsLater-refl gone)
        (inr (inl (omega (arith, create_process-id proc key ev.actor ev.ts_ns gone)))) in
    let end =
      rest_of-Evolves proc ev made.0 h.consistent fresh (omega (arith, h.few, space)) made_h in
    subst (λ (p : ℕ × EntityRegistry). IsPast id (rest_of proc ev p.0 p.1).1) (sym is)
      (elim (end.later.stays_exited id old found over) [
        | inl there ↦ inr (old, there, over)
        | inr evicted ↦ inl evicted
      ])

-- The process behind a number is seen to be another one: the start time of the entity is known, it
-- was last compared at least half a second ago, and /proc now has another start time for the number.
-- Times are in 64 bits.
abbrev pub IsReplaced : Proc → ProcessEntity → ℕ → ℕ → Type 0
IsReplaced proc e key now_ns =
    (e.start_time_ticks ≢ 0)
    × (500000000 ≤ (now_ns + (2 ^ 64 - e.last_identity_check_ns)) % 2 ^ 64)
    × (read_start_time_ticks proc key ≢ 0)
    × (read_start_time_ticks proc key ≢ e.start_time_ticks)

is_reused-IsReplaced :
    (proc : Proc) (e : ProcessEntity) (key now_ns : ℕ)
    → (is_reused proc e key now_ns).0 ≡ true
    → IsReplaced proc e key now_ns
unfolding is_reused
is_reused-IsReplaced proc e key now_ns reused =
    (ground arith, ground arith, ground arith, ground arith)

is_reused-replaced :
    (proc : Proc) (e : ProcessEntity) (key now_ns : ℕ)
    → IsReplaced proc e key now_ns
    → (is_reused proc e key now_ns).0 ≡ true
unfolding is_reused
is_reused-replaced proc e key now_ns (known, due, readable, other) = ground arith

-- The live index has an entity for the actor's key, which is not 0. If the process behind the key is
-- seen to be another one (the entity's start time is known, was last compared at least half a
-- second ago, and /proc has another start time now), the event's subject has the next id, and the
-- old entity is marked as exited or has been evicted; otherwise the subject is the entity. The
-- registry before is consistent, has at most 8192 entities, and has ids left.
pub ingest-identity :
    (proc : Proc) (ev : CanonicalEvent) (r : EntityRegistry) (id : ℕ) (e : ProcessEntity)
    → IsConsistent r
    → IsBounded r
    → r.next_id + 2 < 2 ^ 64
    → key_for ev.actor.tgid ev.actor.pid ≢ 0
    → IsHolder (key_for ev.actor.tgid ev.actor.pid) id e r
    → (¬ IsReplaced proc e (key_for ev.actor.tgid ev.actor.pid) ev.ts_ns)
        × ((ingest proc ev r).event.subject.id ≡ id)
      ⊎ IsReplaced proc e (key_for ev.actor.tgid ev.actor.pid) ev.ts_ns
        × ((ingest proc ev r).event.subject.id ≡ r.next_id)
        × IsPast id (ingest proc ev r).registry
ingest-identity proc ev r id e c b space named holder =
    let key = key_for ev.actor.tgid ev.actor.pid in
    let rich = is_exec ev.action in
    elim (Bool-cases (is_reused proc e key ev.ts_ns).0) [
      | inr same ↦ inl (
        (λ replaced. absurd (cc (same, is_reused-replaced proc e key ev.ts_ns replaced))),
        ingest-subject proc ev r
            ∙ ap (λ p. p.0)
                (resolve_process-known proc ev.actor ev.ts_ns rich r id e named holder same),
      )
      | inl other ↦
          let is = resolve_process-reused proc ev.actor ev.ts_ns rich r id e named holder other in
          let gone = retired proc e ev.actor ev.ts_ns id r in
          let h = retired-Evolves proc ev.actor ev.ts_ns rich r c b id e holder in
          inr (
            is_reused-IsReplaced proc e key ev.ts_ns other,
            ingest-subject proc ev r
                ∙ ap (λ p. p.0) is
                ∙ create_process-id proc key ev.actor ev.ts_ns gone
                ∙ omega (arith, h.few, h.later.grows),
            reused-over proc ev r id e c b space named holder other,
          )
    ]
