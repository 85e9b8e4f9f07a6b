-- ===== src/Registry/Creation.antt =====
-- A new entity, and an eviction, keep a registry consistent.
use e_trace_gen_e_bpfevent_t.Base.{
  length-erase_found, leb, ltb, IsUnique, erase-IsUnique, if◌then◌else◌, insert-IsUnique,
  Bool-cases, Option-cases, ℕ, ◌+◌, ◌≤◌, ◌<◌, ◌^◌, ◌≡◌, ◌⊎◌, inl, inr, false, ◌==◌, List, [], ◌∷◌,
  none, some, length, find, erase, find-insert, find-erase, arith, refl, u64,
}
use e_trace_gen_e_bpfevent_t.Registry.Entity.{ProcessEntity, key_of}
use e_trace_gen_e_bpfevent_t.Registry.Table.{
  EntityRegistry, find_process, store, set_index, retire_index, max_entries, victim,
  evict_if_needed,
}
use e_trace_gen_e_bpfevent_t.Registry.Consistent.{IsConsistent, IsLater}
use e_trace_gen_e_bpfevent_t.Registry.Changes.{retire_index-processes, retire_index_cases}

-- The registry with one more entity, before the eviction.
abbrev pub added : ℕ → ProcessEntity → EntityRegistry → EntityRegistry
added key e r =
    set_index key (some r.next_id) (store r.next_id e (record r { next_id = u64 (r.next_id + 1) }))

module _ (key : ℕ) (e : ProcessEntity) (r : EntityRegistry) (space : r.next_id + 1 < 2 ^ 64)
    (c : IsConsistent r) where
  pub find-added :
      (i : ℕ)
      → find_process i (added key e r) ≡ (if r.next_id == i then some e else find_process i r)
  find-added i = find-insert i r.next_id e r.processes_by_id

  -- The next id has no entity.
  pub find-next_id : find_process r.next_id r ≡ none
  find-next_id = elim (Option-cases (find_process r.next_id r)) [
    | inl missing ↦ missing
    | inr (f, found) ↦ absurd (omega (arith, c.numbered r.next_id f found))
  ]

  pub added-IsConsistent :
      r.tgid_index key ≡ none
      → e.id ≡ r.next_id
      → e.exited ≡ false
      → key_of e ≡ key
      → IsConsistent (added key e r)
  added-IsConsistent missing named live keyed = record {
    numbered = λ i f h. ground (arith, find-added i, c.numbered i f, c.started, space);
    indexed = λ k i h. elim (Bool-cases (k == key)) [
      | inl same ↦ (e, ground (arith, find-added i), live, ground arith)
      | inr other ↦
          let (f, found_f, live_f, keyed_f) = c.indexed k i (ground arith) in
          (f, ground (arith, find-added i, find-next_id), live_f, keyed_f)
    ];
    alive = λ i f h alive. ground (arith, find-added i, c.alive i f);
    started = ground arith;
    unique = insert-IsUnique r.next_id e r.processes_by_id c.unique;
  }

  pub added-IsLater : IsLater r (added key e r)
  added-IsLater = record {
    grows = ground arith;
    stays_gone = λ i given gone. ground (arith, find-added i);
    stays_exited = λ i f h over. inl (ground (arith, find-added i, c.numbered i f h));
  }

-- Without one entity, and without its entry of the index.
abbrev pub removed : ℕ → ProcessEntity → EntityRegistry → EntityRegistry
removed id e r =
    let retired = retire_index (key_of e) e.id r in
    record retired { processes_by_id = erase id retired.processes_by_id }

module _ (id : ℕ) (e : ProcessEntity) (r : EntityRegistry) (found : find_process id r ≡ some e)
    (c : IsConsistent r) where
  pub find-removed :
      (i : ℕ) → find_process i (removed id e r) ≡ (if id == i then none else find_process i r)
  find-removed i =
      rw ((retire_index-processes (key_of e) e.id r).0) (find-erase i id r.processes_by_id)

  pub removed-IsConsistent : IsConsistent (removed id e r)
  removed-IsConsistent =
      let kept = retire_index-processes (key_of e) e.id r in
      record {
        numbered = λ i f h. ground (arith, kept, find-removed i, c.numbered i f);
        indexed = λ k i h. elim (retire_index_cases (key_of e) e.id k r) [
          | inl gone ↦ cc (gone.0, h)
          | inr (same, other) ↦
              let (f, found_f, live, keyed) = c.indexed k i (cc (same, h)) in
              (f, ground (arith, find-removed i, other, c.numbered id e found), live, keyed)
        ];
        alive = λ i f h alive. elim (retire_index_cases (key_of e) e.id (key_of f) r) [
          | inl gone ↦ ground (arith, find-removed i, c.alive i f, c.numbered id e found)
          | inr (same, other) ↦ ground (arith, find-removed i, c.alive i f)
        ];
        started = ground (arith, kept, c.started);
        unique = rw (kept.0) (erase-IsUnique id r.processes_by_id c.unique);
      }

  pub removed-IsLater : (base : EntityRegistry) → IsLater base r → IsLater base (removed id e r)
  removed-IsLater base later = record {
    grows = ground (arith, retire_index-processes (key_of e) e.id r, later.grows);
    stays_gone = λ i given gone. ground (arith, find-removed i, later.stays_gone i given gone);
    stays_exited = λ i f h over. ground (arith, find-removed i, later.stays_exited i f h over);
  }

  pub length-removed : length (removed id e r).processes_by_id + 1 ≤ length r.processes_by_id
  length-removed =
      rw ((retire_index-processes (key_of e) e.id r).0)
        (length-erase_found id e r.processes_by_id found)

  pub removed-next_id : (removed id e r).next_id ≡ r.next_id
  removed-next_id = (retire_index-processes (key_of e) e.id r).1

-- The victim is an entity of the list.
victim-found :
    (m : List (ℕ × ProcessEntity)) (best entry : ℕ × ProcessEntity)
    → IsUnique m
    → victim m (some best) ≡ some entry
    → (entry ≡ best) ⊎ (find entry.0 m ≡ some entry.1)
unfolding victim IsUnique find
victim-found [] best entry u h = ground arith
victim-found ((k, e) ∷ rest) best entry u h =
    let test = ltb e.last_seen_ns best.1.last_seen_ns in
    elim (victim-found rest (if test then (k, e) else best) entry u.1 h) [
      | inl same ↦ elim (Bool-cases test) [
        | inl less ↦ inr (ground arith)
        | inr more ↦ inl (ground arith)
      ]
      | inr there ↦ ground arith
    ]

-- Some entity is evicted when there is one.
victim-some :
    (m : List (ℕ × ProcessEntity)) (best : ℕ × ProcessEntity)
    → (entry : ℕ × ProcessEntity) × (victim m (some best) ≡ some entry)
unfolding victim
victim-some [] best = (best, refl)
victim-some ((k, e) ∷ rest) best =
    victim-some rest (if ltb e.last_seen_ns best.1.last_seen_ns then (k, e) else best)

victim_cases :
    (m : List (ℕ × ProcessEntity))
    → IsUnique m
    → (m ≡ [])
      ⊎ ((entry : ℕ × ProcessEntity) × (victim m none ≡ some entry)
          × (find entry.0 m ≡ some entry.1))
unfolding victim IsUnique find
victim_cases [] u = inl refl
victim_cases ((k, e) ∷ rest) u =
    let (entry, chosen) = victim-some rest (k, e) in
    inr (
      entry,
      chosen,
      elim (victim-found rest (k, e) entry u.1 chosen) [
        | inl same ↦ ground arith
        | inr there ↦ ground arith
      ],
    )

-- The eviction does nothing, or takes one entity that is there.
pub evict_cases :
    (r : EntityRegistry)
    → IsUnique r.processes_by_id
    → ((length r.processes_by_id ≤ max_entries) × (evict_if_needed r ≡ r))
      ⊎ ((id : ℕ) × (e : ProcessEntity) × (find_process id r ≡ some e)
          × (evict_if_needed r ≡ removed id e r))
unfolding evict_if_needed
evict_cases r u = elim (Bool-cases (leb (length r.processes_by_id) max_entries)) [
  | inl fits ↦ inl (ground arith, ground arith)
  | inr full ↦ elim (victim_cases r.processes_by_id u) [
    | inl empty ↦ ground arith
    | inr (entry, chosen, found) ↦ inr (entry.0, entry.1, found, ground arith)
  ]
]
