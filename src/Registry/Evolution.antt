-- ===== src/Registry/Evolution.antt =====
-- A call of `ResolveProcess` or `ResolveChild` takes a consistent registry to a later one.
use e_trace_gen_e_bpfevent_t.Base.{
  length-insert_found, length-insert-le, ◌∙◌, ℕ, ℤ, ◌+◌, ◌≤◌, ◌<◌, ◌^◌, ◌≡◌, ◌⊎◌, inl, inr, true,
  false, none, some, arith, refl, Bool-cases, Option-cases,
}
use e_trace_gen_e_bpfevent_t.Util.Proc.{Proc}
use e_trace_gen_e_bpfevent_t.Model.Canonical.{ActorIdentity}
use e_trace_gen_e_bpfevent_t.Registry.Entity.{ProcessEntity, key_of, key_for}
use e_trace_gen_e_bpfevent_t.Registry.Table.{
  EntityRegistry, find_process, store, retire_index, mark_exited, create_process, fresh_entity,
}
use e_trace_gen_e_bpfevent_t.Registry.Kept.{fresh_entity_lem}
use e_trace_gen_e_bpfevent_t.Registry.Consistent.{
  IsConsistent, IsLater, IsBounded, IsLater-refl, IsLater-trans, NotExited,
}
use e_trace_gen_e_bpfevent_t.Registry.Changes.{
  store-IsConsistent, store-IsLater, closed-IsConsistent, retire_index-processes,
}
use e_trace_gen_e_bpfevent_t.Registry.Creation.{
  removed-next_id, length-removed, added, added-IsConsistent, added-IsLater, removed-IsConsistent,
  removed-IsLater, evict_cases,
}

-- A consistent registry that is later than another and has given at most `n` ids since.
pub record Evolves (n : ℕ) (r s : EntityRegistry) : Type 0 where
  pub consistent : IsConsistent s
  pub later : IsLater r s
  pub bounded : IsBounded s
  pub few : s.next_id ≤ r.next_id + n

pub Evolves-trans :
    {n m : ℕ} {r s t : EntityRegistry}
    → IsConsistent r
    → Evolves n r s
    → Evolves m s t
    → Evolves (n + m) r t
Evolves-trans c h g = record {
  consistent = g.consistent;
  later = IsLater-trans c h.later g.later;
  bounded = g.bounded;
  few = omega (arith, h.few, g.few);
}

module _ (proc : Proc) (key : ℕ) (actor : ActorIdentity) (now_ns : ℕ)
    (named : key_for actor.tgid actor.pid ≡ key) where
  -- At a key without a live entity a new one is made under the next id.
  pub create_process-Evolves :
      (r : EntityRegistry)
      → r.tgid_index key ≡ none
      → r.next_id + 1 < 2 ^ 64
      → IsConsistent r
      → IsBounded r
      → Evolves 1 r (create_process proc key actor now_ns r).1
  unfolding create_process
  create_process-Evolves r missing space c b =
      let e = fresh_entity proc key actor now_ns r.next_id in
      let (id_is, exited_is, key_is) = fresh_entity_lem proc key actor now_ns r.next_id in
      let ready = added-IsConsistent key e r space c missing id_is exited_is (key_is ∙ named) in
      let after = added-IsLater key e r space c in
      elim (evict_cases (added key e r) ready.unique) [
        | inl (fits, same) ↦
            rw same
              (record { consistent = ready; later = after; bounded = fits; few = ground arith })
        | inr (id, f, found, same) ↦ rw same (record {
          consistent = removed-IsConsistent id f (added key e r) found ready;
          later = removed-IsLater id f (added key e r) found ready r after;
          bounded = omega (
            arith,
            length-removed id f (added key e r) found ready,
            length-insert-le r.next_id e r.processes_by_id,
            b,
          );
          few = ground (arith, removed-next_id id f (added key e r) found ready);
        })
      ]

-- An id of a live entity, of no entity yet, or 0.
abbrev pub IsOpen : EntityRegistry → ℕ → Type 0
IsOpen r id =
    ((e : ProcessEntity) × (find_process id r ≡ some e) × (e.exited ≡ false))
    ⊎ ((r.next_id ≤ id) ⊎ (id ≡ 0))

pub IsOpen-NotExited :
    (r s : EntityRegistry) (id : ℕ) → IsConsistent r → IsLater r s → IsOpen s id → NotExited r id
IsOpen-NotExited r s id c later open_id e found = elim (Bool-cases e.exited) [
  | inr live ↦ live
  | inl over ↦ absurd (elim open_id [
    | inl (f, there, live) ↦ elim (later.stays_exited id e found over) [
      | inl same ↦ ground arith
      | inr gone ↦ ground arith
    ]
    | inr (inl ahead) ↦ omega (arith, later.grows, c.numbered id e found, ahead)
    | inr (inr none_yet) ↦ omega (arith, c.numbered id e found, none_yet)
  ])
]

pub Evolves-refl : (r : EntityRegistry) → IsConsistent r → IsBounded r → Evolves 0 r r
Evolves-refl r c b = record {
  consistent = c;
  later = IsLater-refl r;
  bounded = b;
  few = omega arith;
}

pub mark_exited_missing :
    (id now_ns : ℕ) (code : ℤ) (r : EntityRegistry)
    → find_process id r ≡ none
    → mark_exited id now_ns code r ≡ r
unfolding mark_exited
mark_exited_missing id now_ns code r missing = ground arith

pub mark_exited_found :
    (id : ℕ) (e : ProcessEntity) (now_ns : ℕ) (code : ℤ) (r : EntityRegistry)
    → find_process id r ≡ some e
    → mark_exited id now_ns code r
      ≡ retire_index
          (key_of e)
          id
          (store id (record e { exited = true; exit_ns = now_ns; exit_code = code }) r)
unfolding mark_exited
mark_exited_found id e now_ns code r found = ground arith

-- Changes of an entity that had not exited at the start.
module _ {n : ℕ} {r s : EntityRegistry} (id : ℕ) (c : IsConsistent r) (fresh : NotExited r id)
    (h : Evolves n r s) where
  pub store-Evolves :
      (e e' : ProcessEntity)
      → find_process id s ≡ some e
      → e'.id ≡ e.id
      → key_of e' ≡ key_of e
      → e'.exited ≡ e.exited
      → Evolves n r (store id e' s)
  store-Evolves e e' found same_id same_key same_exited = record {
    consistent = store-IsConsistent id e e' s found same_id same_key same_exited h.consistent;
    later = store-IsLater id e e' r s found fresh c h.later;
    bounded = omega (arith, length-insert_found id e' e s.processes_by_id found, h.bounded);
    few = h.few;
  }

  pub mark_exited-Evolves : (now_ns : ℕ) (code : ℤ) → Evolves n r (mark_exited id now_ns code s)
  mark_exited-Evolves now_ns code = elim (Option-cases (find_process id s)) [
    | inl missing ↦ rw (mark_exited_missing id now_ns code s missing) h
    | inr (e, found) ↦
        let e' : ProcessEntity = record e { exited = true; exit_ns = now_ns; exit_code = code } in
        let kept = retire_index-processes (key_of e) id (store id e' s) in
        let later = store-IsLater id e e' r s found fresh c h.later in
        rw (mark_exited_found id e now_ns code s found) (record {
          consistent = closed-IsConsistent id e e' s found refl refl refl h.consistent;
          later = record {
            grows = ground (arith, kept, later.grows);
            stays_gone = λ i given gone. ground (arith, kept, later.stays_gone i given gone);
            stays_exited = λ i f at over. ground (arith, kept, later.stays_exited i f at over);
          };
          bounded =
              rw (kept.0)
                (omega (arith, length-insert_found id e' e s.processes_by_id found, h.bounded));
          few = ground (arith, kept, h.few);
        })
  ]
