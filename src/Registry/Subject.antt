-- ===== src/Registry/Subject.antt =====
-- The subject of an event: who it is after the call.
use e_trace_gen_e_bpfevent_t.Base.{
  find-insert, ◌∙◌, ℕ, ◌+◌, ◌<◌, ◌^◌, ◌≡◌, ◌≢◌, ◌⊎◌, inl, inr, Bool, ◌==◌, none, some, arith, refl,
  Bool-cases,
}
use e_trace_gen_e_bpfevent_t.Util.Proc.{Proc}
use e_trace_gen_e_bpfevent_t.Model.Canonical.{ActorIdentity}
use e_trace_gen_e_bpfevent_t.Registry.Entity.{ProcessEntity, key_of, key_for}
use e_trace_gen_e_bpfevent_t.Registry.Table.{
  EntityRegistry, find_process, create_process, fresh_entity, resolve_process,
}
use e_trace_gen_e_bpfevent_t.Registry.Kept.{fresh_entity_lem}
use e_trace_gen_e_bpfevent_t.Registry.Resolution.{
  seen_again, retired, IsHolder, Resolution, resolve_process_cases,
}
use e_trace_gen_e_bpfevent_t.Registry.Consistent.{IsConsistent, IsBounded}
use e_trace_gen_e_bpfevent_t.Registry.Changes.{retire_index_cases}
use e_trace_gen_e_bpfevent_t.Registry.Creation.{
  find-removed, find-added, added, removed, added-IsConsistent, evict_cases,
}
use e_trace_gen_e_bpfevent_t.Registry.Resolving.{
  retired-frees, seen_again-keeps, create_process-id, retired-Evolves,
}

-- The id is the live holder of the key, or has no entity, and then the key has no holder.
abbrev pub IsSettled : ℕ → ℕ → EntityRegistry → Type 0
IsSettled key id s =
    ((e : ProcessEntity) × IsHolder key id e s)
    ⊎ ((find_process id s ≡ none) × (s.tgid_index key ≡ none))

-- An eviction takes the holder of a key, or leaves it.
removed-IsSettled :
    (key id j : ℕ) (e f : ProcessEntity) (s : EntityRegistry)
    → find_process id s ≡ some f
    → IsConsistent s
    → IsHolder key j e s
    → IsSettled key j (removed id f s)
removed-IsSettled key id j e f s found c holder = elim (Bool-cases (id == j)) [
  | inl same ↦ inr (
    ground (arith, find-removed id f s found c j),
    elim (retire_index_cases (key_of f) f.id key s) [
      | inl (gone, _, _) ↦ gone
      | inr (kept, not_both) ↦
          absurd (
            ground
              (arith, not_both, holder.held, holder.found, holder.keyed, c.numbered id f found))
    ],
  )
  | inr other ↦ inl (
    e,
    record {
      held = elim (retire_index_cases (key_of f) f.id key s) [
        | inl (gone, here, its) ↦
            absurd (ground (arith, here, its, holder.held, c.numbered id f found))
        | inr (kept, not_both) ↦ kept ∙ holder.held
      ];
      found = ground (arith, find-removed id f s found c j, holder.found);
      live = holder.live;
      keyed = holder.keyed;
    },
  )
]

create_process-IsSettled :
    (proc : Proc) (key : ℕ) (actor : ActorIdentity) (now_ns : ℕ) (r : EntityRegistry)
    → key_for actor.tgid actor.pid ≡ key
    → r.tgid_index key ≡ none
    → r.next_id + 1 < 2 ^ 64
    → IsConsistent r
    → IsSettled key r.next_id (create_process proc key actor now_ns r).1
unfolding create_process
create_process-IsSettled proc key actor now_ns r named missing space c =
    let e = fresh_entity proc key actor now_ns r.next_id in
    let (id_is, exited_is, key_is) = fresh_entity_lem proc key actor now_ns r.next_id in
    let ready = added-IsConsistent key e r space c missing id_is exited_is (key_is ∙ named) in
    let there : find_process r.next_id (added key e r) ≡ some e =
      ground (arith, find-added key e r space c r.next_id) in
    let holder : IsHolder key r.next_id e (added key e r) = record {
      held = ground arith;
      found = there;
      live = exited_is;
      keyed = key_is ∙ named;
    } in
    elim (evict_cases (added key e r) ready.unique) [
      | inl (fits, same) ↦ rw same (inl (e, holder))
      | inr (id, f, found, same) ↦
          rw same (removed-IsSettled key id r.next_id e f (added key e r) found ready holder)
    ]

module _ (proc : Proc) (actor : ActorIdentity) (now_ns : ℕ) (rich : Bool) (r : EntityRegistry)
    (c : IsConsistent r) (b : IsBounded r) (space : r.next_id + 1 < 2 ^ 64)
    (named : key_for actor.tgid actor.pid ≢ 0) where
  -- The actor's key is settled: it has a live entity, or the new one was evicted at once.
  pub resolve_process-IsSettled :
      IsSettled
        (key_for actor.tgid actor.pid)
        (resolve_process proc actor now_ns rich r).0
        (resolve_process proc actor now_ns rich r).1
  resolve_process-IsSettled =
      let key = key_for actor.tgid actor.pid in
      elim (resolve_process_cases proc actor now_ns rich r c) [
        | Resolution.nobody no_key same ↦ absurd (named no_key)
        | Resolution.newcomer missing same ↦
            rw (same, create_process-id proc key actor now_ns r)
              (create_process-IsSettled proc key actor now_ns r refl missing space c)
        | Resolution.known id e holder same ↦
            let kept = seen_again-keeps proc e actor now_ns rich in
            rw same (
              inl (
                seen_again proc e actor now_ns rich,
                record {
                  held = holder.held;
                  found = ground (
                    arith,
                    find-insert id id (seen_again proc e actor now_ns rich) r.processes_by_id,
                  );
                  live = kept.1 ∙ holder.live;
                  keyed = kept.2;
                },
              ))
        | Resolution.reused id e holder same ↦
            let gone = retired proc e actor now_ns id r in
            let h = retired-Evolves proc actor now_ns rich r c b id e holder in
            rw (same, create_process-id proc key actor now_ns gone)
              (create_process-IsSettled proc key actor now_ns gone refl
                (retired-frees proc actor now_ns rich r c b id e holder)
                (omega (arith, h.few, space)) h.consistent)
      ]
