-- ===== src/Registry/Changes.antt =====
-- The single changes of a registry keep it consistent.
use e_trace_gen_e_bpfevent_t.Base.{
  Option-cases, insert-IsUnique, Bool-cases, ℕ, ◌≡◌, ◌≢◌, ◌⊎◌, inl, inr, true, ◌==◌, none, some,
  find-insert, arith,
}
use e_trace_gen_e_bpfevent_t.Registry.Entity.{ProcessEntity, key_of}
use e_trace_gen_e_bpfevent_t.Registry.Table.{EntityRegistry, find_process, store, retire_index}
use e_trace_gen_e_bpfevent_t.Registry.Consistent.{IsConsistent, IsLater, NotExited}

-- A write that keeps what the index stands on.
pub store-IsConsistent :
    (id : ℕ) (e e' : ProcessEntity) (r : EntityRegistry)
    → find_process id r ≡ some e
    → e'.id ≡ e.id
    → key_of e' ≡ key_of e
    → e'.exited ≡ e.exited
    → IsConsistent r
    → IsConsistent (store id e' r)
store-IsConsistent id e e' r found same_id same_key same_exited c = record {
  numbered = λ i f h.
      ground (arith, find-insert i id e' r.processes_by_id, c.numbered i f, c.numbered id e found);
  indexed = λ k i h.
      let (f, found_f, live, keyed) = c.indexed k i h in
      elim (Bool-cases (id == i)) [
        | inl same ↦
            (e', ground (arith, find-insert i id e' r.processes_by_id), ground arith, ground arith)
        | inr other ↦ (f, ground (arith, find-insert i id e' r.processes_by_id), live, keyed)
      ];
  alive = λ i f h alive.
      ground (arith, find-insert i id e' r.processes_by_id, c.alive i f, c.alive id e found);
  started = ground (arith, c.started);
  unique = insert-IsUnique id e' r.processes_by_id c.unique;
}

pub store-IsLater :
    (id : ℕ) (e e' : ProcessEntity) (r s : EntityRegistry)
    → find_process id s ≡ some e
    → NotExited r id
    → IsConsistent r
    → IsLater r s
    → IsLater r (store id e' s)
store-IsLater id e e' r s found fresh c later = record {
  grows = later.grows;
  stays_gone = λ i given gone.
      ground (arith, find-insert i id e' s.processes_by_id, later.stays_gone i given gone);
  stays_exited = λ i f h over.
      ground (arith, find-insert i id e' s.processes_by_id, later.stays_exited i f h over, fresh f);
}

pub retire_index-processes :
    (k id : ℕ) (r : EntityRegistry)
    → ((retire_index k id r).processes_by_id ≡ r.processes_by_id)
      × ((retire_index k id r).next_id ≡ r.next_id)
unfolding retire_index
retire_index-processes k id r = elim (Option-cases (r.tgid_index k)) [
  | inl missing ↦ ground arith
  | inr (j, held) ↦ ground arith
]

-- The index loses its entry of the key if that is the id's.
pub retire_index_cases :
    (k id j : ℕ) (r : EntityRegistry)
    → (((retire_index k id r).tgid_index j ≡ none) × (j ≡ k) × (r.tgid_index k ≡ some id))
      ⊎ (((retire_index k id r).tgid_index j ≡ r.tgid_index j) × (j ≡ k → r.tgid_index k ≢ some id))
unfolding retire_index
retire_index_cases k id j r = elim (Option-cases (r.tgid_index k)) [
  | inl missing ↦ inr (ground arith, λ same held2. ground arith)
  | inr (i, held) ↦ elim (Bool-cases (i == id)) [
    | inl same ↦ elim (Bool-cases (j == k)) [
      | inl here ↦ inl (ground arith, ground arith, ground arith)
      | inr there ↦ inr (ground arith, λ same held2. ground arith)
    ]
    | inr other ↦ inr (ground arith, λ same held2. ground arith)
  ]
]

-- A live entity that exits.
pub closed-IsConsistent :
    (id : ℕ) (e e' : ProcessEntity) (r : EntityRegistry)
    → find_process id r ≡ some e
    → e'.id ≡ e.id
    → key_of e' ≡ key_of e
    → e'.exited ≡ true
    → IsConsistent r
    → IsConsistent (retire_index (key_of e) id (store id e' r))
closed-IsConsistent id e e' r found same_id same_key over c =
    let kept = retire_index-processes (key_of e) id (store id e' r) in
    record {
      numbered = λ i f h. ground (
        arith,
        kept,
        find-insert i id e' r.processes_by_id,
        c.numbered i f,
        c.numbered id e found,
      );
      indexed = λ k i h. elim (retire_index_cases (key_of e) id k (store id e' r)) [
        | inl gone ↦ cc (gone.0, h)
        | inr (same, other) ↦
            let (f, found_f, live, keyed) = c.indexed k i (cc (same, h)) in
            (f, ground (arith, kept, find-insert i id e' r.processes_by_id, other), live, keyed)
      ];
      alive = λ i f h alive. elim (retire_index_cases (key_of e) id (key_of f) (store id e' r)) [
        | inl gone ↦ ground (arith, kept, find-insert i id e' r.processes_by_id, c.alive i f)
        | inr (same, other) ↦
            ground (arith, kept, find-insert i id e' r.processes_by_id, c.alive i f)
      ];
      started = ground (arith, kept, c.started);
      unique = rw (kept.0) (insert-IsUnique id e' r.processes_by_id c.unique);
    }
