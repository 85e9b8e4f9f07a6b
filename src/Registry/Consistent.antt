-- ===== src/Registry/Consistent.antt =====
-- When a registry is consistent, and what a change of it may do to the entities.
use mathlib.Core.Path.{◌≡◌}
use e_trace_gen_e_bpfevent_t.Base.{
  ℕ, ◌≤◌, ◌<◌, ◌⊎◌, inl, inr, true, false, none, some, length, IsUnique, arith,
}
use e_trace_gen_e_bpfevent_t.Registry.Entity.{ProcessEntity, key_of}
use e_trace_gen_e_bpfevent_t.Registry.Table.{EntityRegistry, find_process, max_entries}

-- An entity stands under its id, an id from 1 to the last one given. The index has exactly the
-- entities that have not exited, by their keys, so no two of these have the same key.
pub record IsConsistent (r : EntityRegistry) : Type 0 where
  pub numbered :
      (id : ℕ) (e : ProcessEntity)
      → find_process id r ≡ some e
      → (e.id ≡ id) × (1 ≤ id) × (id < r.next_id)
  pub indexed :
      (k id : ℕ)
      → r.tgid_index k ≡ some id
      → (e : ProcessEntity) × (find_process id r ≡ some e) × (e.exited ≡ false) × (key_of e ≡ k)
  pub alive :
      (id : ℕ) (e : ProcessEntity)
      → find_process id r ≡ some e
      → e.exited ≡ false
      → r.tgid_index (key_of e) ≡ some id
  pub started : 1 ≤ r.next_id
  pub unique : IsUnique r.processes_by_id

abbrev pub IsBounded : EntityRegistry → Type 0
IsBounded r = length r.processes_by_id ≤ max_entries

-- Ids only grow; an id once given that has no entity gets none; an entity that has exited stays as
-- it is or is evicted.
pub record IsLater (r s : EntityRegistry) : Type 0 where
  pub grows : r.next_id ≤ s.next_id
  pub stays_gone : (id : ℕ) → id < r.next_id → find_process id r ≡ none → find_process id s ≡ none
  pub stays_exited :
      (id : ℕ) (e : ProcessEntity)
      → find_process id r ≡ some e
      → e.exited ≡ true
      → (find_process id s ≡ some e) ⊎ (find_process id s ≡ none)

pub IsLater-refl : (r : EntityRegistry) → IsLater r r
IsLater-refl r = record {
  grows = omega arith;
  stays_gone = λ id given gone. gone;
  stays_exited = λ id e found over. inl found;
}

pub IsLater-trans :
    {r s t : EntityRegistry} → IsConsistent r → IsLater r s → IsLater s t → IsLater r t
IsLater-trans c h g = record {
  grows = omega (arith, h.grows, g.grows);
  stays_gone =
      λ id given gone. g.stays_gone id (omega (arith, given, h.grows)) (h.stays_gone id given gone);
  stays_exited = λ id e found over. elim (h.stays_exited id e found over) [
    | inl there ↦ g.stays_exited id e there over
    | inr evicted ↦
        inr (g.stays_gone id (omega (arith, (c.numbered id e found).2, h.grows)) evicted)
  ];
}

-- An id that no exited entity has.
abbrev pub NotExited : EntityRegistry → ℕ → Type 0
NotExited r id = (e : ProcessEntity) → find_process id r ≡ some e → e.exited ≡ false
