-- ===== src/Registry/Resolving.antt =====
-- A call of `ResolveProcess` or `ResolveChild` takes a consistent registry to a later one.
use e_trace_gen_e_bpfevent_t.Base.{
  if_keeps, find-insert, ◌∙◌, ℕ, ℤ, pos, ◌+◌, ◌<◌, ◌^◌, ◌≡◌, ◌⊎◌, inl, inr, Bool, true, ◌==◌, none,
  some, insert, arith, refl, sym, ap, Bool-cases, Option-cases,
}
use e_trace_gen_e_bpfevent_t.Util.Proc.{Proc}
use e_trace_gen_e_bpfevent_t.Model.Canonical.{ActorIdentity}
use e_trace_gen_e_bpfevent_t.Registry.Entity.{ProcessEntity, key_of, key_for, update_fast}
use e_trace_gen_e_bpfevent_t.Registry.Table.{
  EntityRegistry, find_process, store, mark_exited, is_reused, create_process, resolve_process,
  adopt, resolve_child, child_actor,
}
use e_trace_gen_e_bpfevent_t.Registry.Kept.{update_fast-keeps, refresh_rich-keeps, is_reused-keeps}
use e_trace_gen_e_bpfevent_t.Registry.Resolution.{
  seen_again, retired, IsHolder, Resolution, resolve_process_cases,
}
use e_trace_gen_e_bpfevent_t.Registry.Consistent.{IsConsistent, IsBounded, IsLater-refl, NotExited}
use e_trace_gen_e_bpfevent_t.Registry.Changes.{retire_index_cases, retire_index-processes}
use e_trace_gen_e_bpfevent_t.Registry.Evolution.{
  Evolves, Evolves-refl, Evolves-trans, IsOpen, IsOpen-NotExited, mark_exited_found, store-Evolves,
  mark_exited-Evolves, create_process-Evolves,
}

-- The index drops a key whose holder exits.
pub mark_exited-frees :
    (key id : ℕ) (e : ProcessEntity) (now_ns : ℕ) (code : ℤ) (r : EntityRegistry)
    → IsHolder key id e r
    → (mark_exited id now_ns code r).tgid_index key ≡ none
mark_exited-frees key id e now_ns code r holder =
    let e' : ProcessEntity = record e { exited = true; exit_ns = now_ns; exit_code = code } in
    rw (mark_exited_found id e now_ns code r holder.found)
      (elim (retire_index_cases (key_of e) id key (store id e' r)) [
        | inl (gone, _, _) ↦ gone
        | inr (same, other) ↦
            absurd (other (sym holder.keyed) (ap r.tgid_index holder.keyed ∙ holder.held))
      ])

pub seen_again-keeps :
    (proc : Proc) (e : ProcessEntity) (actor : ActorIdentity) (now_ns : ℕ) (rich : Bool)
    → ((seen_again proc e actor now_ns rich).id ≡ e.id)
      × ((seen_again proc e actor now_ns rich).exited ≡ e.exited)
      × (key_of (seen_again proc e actor now_ns rich) ≡ key_for actor.tgid actor.pid)
seen_again-keeps proc e actor now_ns rich =
    let key = key_for actor.tgid actor.pid in
    let checked = (is_reused proc e key now_ns).1 in
    let c = is_reused-keeps proc e key now_ns in
    let u = update_fast-keeps checked actor now_ns in
    let w = refresh_rich-keeps proc (update_fast checked actor now_ns) key in
    elim (Bool-cases rich) [
      | inl yes_rich ↦ rw yes_rich (w.0 ∙ u.0 ∙ c.0, w.1 ∙ u.1 ∙ c.1, w.2 ∙ u.2)
      | inr not_rich ↦ rw not_rich (u.0 ∙ c.0, u.1 ∙ c.1, u.2)
    ]

pub Evolves-weaken : {r s : EntityRegistry} → Evolves 0 r s → Evolves 1 r s
Evolves-weaken h = record {
  consistent = h.consistent;
  later = h.later;
  bounded = h.bounded;
  few = omega (arith, h.few);
}

pub create_process-id :
    (proc : Proc) (key : ℕ) (actor : ActorIdentity) (now_ns : ℕ) (r : EntityRegistry)
    → (create_process proc key actor now_ns r).0 ≡ r.next_id
unfolding create_process
create_process-id proc key actor now_ns r = refl

module _ (proc : Proc) (actor : ActorIdentity) (now_ns : ℕ) (rich : Bool) (r : EntityRegistry)
    (c : IsConsistent r) (b : IsBounded r) where
  pub holder-NotExited :
      (id : ℕ) (e : ProcessEntity) → IsHolder (key_for actor.tgid actor.pid) id e r → NotExited r id
  holder-NotExited id e holder f at = ground (arith, holder.found, holder.live)

  pub retired-Evolves :
      (id : ℕ) (e : ProcessEntity)
      → IsHolder (key_for actor.tgid actor.pid) id e r
      → Evolves 0 r (retired proc e actor now_ns id r)
  retired-Evolves id e holder =
      let kept = is_reused-keeps proc e (key_for actor.tgid actor.pid) now_ns in
      let fresh = holder-NotExited id e holder in
      mark_exited-Evolves id c fresh
        (store-Evolves id c fresh (Evolves-refl r c b) e
          (is_reused proc e (key_for actor.tgid actor.pid) now_ns).1 holder.found kept.0 kept.2
          kept.1)
        now_ns (pos 0)

  -- The old entity is marked as exited.
  pub retired-exited :
      (id : ℕ) (e : ProcessEntity)
      → IsHolder (key_for actor.tgid actor.pid) id e r
      → (old : ProcessEntity) × (find_process id (retired proc e actor now_ns id r) ≡ some old)
        × (old.exited ≡ true)
  retired-exited id e holder =
      let checked = (is_reused proc e (key_for actor.tgid actor.pid) now_ns).1 in
      let old : ProcessEntity = record checked {
        exited = true;
        exit_ns = now_ns;
        exit_code = pos 0;
      } in
      let there : find_process id (store id checked r) ≡ some checked =
        ground (arith, find-insert id id checked r.processes_by_id) in
      (
        old,
        rw (mark_exited_found id checked now_ns (pos 0) (store id checked r) there) (
            ground (
              arith,
              retire_index-processes (key_of checked) id (store id old (store id checked r)),
              find-insert id id old (insert id checked r.processes_by_id),
            )),
        refl,
      )

  pub retired-frees :
      (id : ℕ) (e : ProcessEntity)
      → IsHolder (key_for actor.tgid actor.pid) id e r
      → (retired proc e actor now_ns id r).tgid_index (key_for actor.tgid actor.pid) ≡ none
  retired-frees id e holder =
      let key = key_for actor.tgid actor.pid in
      let checked = (is_reused proc e key now_ns).1 in
      let kept = is_reused-keeps proc e key now_ns in
      mark_exited-frees key id checked now_ns (pos 0) (store id checked r) (record {
        held = holder.held;
        found = ground (arith, find-insert id id checked r.processes_by_id);
        live = kept.1 ∙ holder.live;
        keyed = kept.2 ∙ holder.keyed;
      })

  pub resolve_process-Evolves :
      r.next_id + 1 < 2 ^ 64 → Evolves 1 r (resolve_process proc actor now_ns rich r).1
  resolve_process-Evolves space =
      let key = key_for actor.tgid actor.pid in
      elim (resolve_process_cases proc actor now_ns rich r c) [
        | Resolution.nobody no_key same ↦ rw same (Evolves-weaken (Evolves-refl r c b))
        | Resolution.newcomer missing same ↦
            rw same (create_process-Evolves proc key actor now_ns refl r missing space c b)
        | Resolution.known id e holder same ↦
            let kept = seen_again-keeps proc e actor now_ns rich in
            rw same (
              Evolves-weaken (
                store-Evolves id c (holder-NotExited id e holder) (Evolves-refl r c b) e
                  (seen_again proc e actor now_ns rich) holder.found kept.0
                  (kept.2 ∙ sym holder.keyed) kept.1))
        | Resolution.reused id e holder same ↦
            let gone = retired-Evolves id e holder in
            rw same (
              Evolves-trans c gone (
                create_process-Evolves proc key actor now_ns refl (retired proc e actor now_ns id r)
                  (retired-frees id e holder) (omega (arith, gone.few, space)) gone.consistent
                  gone.bounded))
      ]

  -- The id is that of an entity that has not exited, or the next one.
  pub resolve_process-IsOpen : IsOpen r (resolve_process proc actor now_ns rich r).0
  resolve_process-IsOpen = elim (resolve_process_cases proc actor now_ns rich r c) [
    | Resolution.nobody no_key same ↦ inr (inr (ap (λ p. p.0) same))
    | Resolution.newcomer missing same ↦ rw same (
        inr (
          inl
            (omega (arith, create_process-id proc (key_for actor.tgid actor.pid) actor now_ns r))))
    | Resolution.known id e holder same ↦ rw same (inl (e, holder.found, holder.live))
    | Resolution.reused id e holder same ↦ rw same (
        inr (
          inl (
            omega (
              arith,
              create_process-id proc (key_for actor.tgid actor.pid) actor now_ns
                  (retired proc e actor now_ns id r),
              (retired-Evolves id e holder).later.grows,
            ))))
  ]

adopt_cases :
    (id parent_id : ℕ) (s : EntityRegistry)
    → (adopt id parent_id s ≡ s)
      ⊎ ((e : ProcessEntity) × (find_process id s ≡ some e)
          × (adopt id parent_id s ≡ store id (record e { parent_id = parent_id }) s))
unfolding adopt
adopt_cases id parent_id s = elim (Option-cases (find_process id s)) [
  | inl missing ↦ inl (ground arith)
  | inr (e, found) ↦ elim (Bool-cases (e.parent_id == 0)) [
    | inl orphan ↦ inr (e, found, ground arith)
    | inr has_parent ↦ inl (ground arith)
  ]
]

adopt-Evolves :
    {n : ℕ} {r s : EntityRegistry} (id parent_id : ℕ)
    → IsConsistent r
    → NotExited r id
    → Evolves n r s
    → Evolves n r (adopt id parent_id s)
adopt-Evolves {s = s} id parent_id c fresh h = elim (adopt_cases id parent_id s) [
  | inl same ↦ rw same h
  | inr (e, found, same) ↦
      rw same
        (store-Evolves id c fresh h e (record e { parent_id = parent_id }) found refl refl refl)
]

pub resolve_child-Evolves :
    (proc : Proc) (child_pid parent_id : ℕ) (parent : ActorIdentity) (now_ns : ℕ)
    (r : EntityRegistry)
    → IsConsistent r
    → IsBounded r
    → r.next_id + 1 < 2 ^ 64
    → Evolves 1 r (resolve_child proc child_pid parent_id parent now_ns r).1
unfolding resolve_child
resolve_child-Evolves proc child_pid parent_id parent now_ns r c b space =
    let actor = child_actor child_pid parent in
    let resolved = resolve_process proc actor now_ns true r in
    let h = resolve_process-Evolves proc actor now_ns true r c b space in
    let open_id = resolve_process-IsOpen proc actor now_ns true r c b in
    let fresh = IsOpen-NotExited r r resolved.0 c (IsLater-refl r) open_id in
    if_keeps (λ (p : ℕ × EntityRegistry). Evolves 1 r p.1) (child_pid == 0)
      (Evolves-weaken (Evolves-refl r c b)) (adopt-Evolves resolved.0 parent_id c fresh h)
