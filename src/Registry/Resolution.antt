-- ===== src/Registry/Resolution.antt =====
-- The four ways of `ResolveProcess` in a consistent registry.
use e_trace_gen_e_bpfevent_t.Base.{
  if◌then◌else◌, ℕ, pos, ◌≡◌, ◌≢◌, inl, inr, Bool, true, false, ◌==◌, none, some, arith, Bool-cases,
  Option-cases,
}
use e_trace_gen_e_bpfevent_t.Util.Proc.{Proc}
use e_trace_gen_e_bpfevent_t.Model.Canonical.{ActorIdentity}
use e_trace_gen_e_bpfevent_t.Registry.Entity.{
  ProcessEntity, key_of, key_for, update_fast, refresh_rich,
}
use e_trace_gen_e_bpfevent_t.Registry.Table.{
  EntityRegistry, find_process, store, mark_exited, is_reused, create_process, resolve_found,
  resolve_process,
}
use e_trace_gen_e_bpfevent_t.Registry.Consistent.{IsConsistent}

-- What an event makes of the entity that it finds.
abbrev pub seen_again : Proc → ProcessEntity → ActorIdentity → ℕ → Bool → ProcessEntity
seen_again proc e actor now_ns rich =
    let key = key_for actor.tgid actor.pid in
    let updated = update_fast (is_reused proc e key now_ns).1 actor now_ns in
    if rich then refresh_rich proc updated key else updated

abbrev pub retired : Proc → ProcessEntity → ActorIdentity → ℕ → ℕ → EntityRegistry → EntityRegistry
retired proc e actor now_ns id r =
    mark_exited id now_ns (pos 0)
      (store id (is_reused proc e (key_for actor.tgid actor.pid) now_ns).1 r)

-- The index has a live entity of the key.
pub record IsHolder (key id : ℕ) (e : ProcessEntity) (r : EntityRegistry) : Type 0 where
  pub held : r.tgid_index key ≡ some id
  pub found : find_process id r ≡ some e
  pub live : e.exited ≡ false
  pub keyed : key_of e ≡ key

pub data Resolution (proc : Proc) (actor : ActorIdentity) (now_ns : ℕ) (rich : Bool)
    (r : EntityRegistry) : Type 0 where
  nobody :
      key_for actor.tgid actor.pid ≡ 0
      → resolve_process proc actor now_ns rich r ≡ (0, r)
      → Resolution proc actor now_ns rich r
  newcomer :
      r.tgid_index (key_for actor.tgid actor.pid) ≡ none
      → resolve_process proc actor now_ns rich r
        ≡ create_process proc (key_for actor.tgid actor.pid) actor now_ns r
      → Resolution proc actor now_ns rich r
  known :
      (id : ℕ) (e : ProcessEntity)
      → IsHolder (key_for actor.tgid actor.pid) id e r
      → resolve_process proc actor now_ns rich r
        ≡ (id, store id (seen_again proc e actor now_ns rich) r)
      → Resolution proc actor now_ns rich r
  reused :
      (id : ℕ) (e : ProcessEntity)
      → IsHolder (key_for actor.tgid actor.pid) id e r
      → resolve_process proc actor now_ns rich r
        ≡ create_process proc
            (key_for actor.tgid actor.pid)
            actor
            now_ns
            (retired proc e actor now_ns id r)
      → Resolution proc actor now_ns rich r

pub resolve_process_cases :
    (proc : Proc) (actor : ActorIdentity) (now_ns : ℕ) (rich : Bool) (r : EntityRegistry)
    → IsConsistent r
    → Resolution proc actor now_ns rich r
unfolding resolve_process resolve_found
resolve_process_cases proc actor now_ns rich r c =
    let key = key_for actor.tgid actor.pid in
    elim (Bool-cases (key == 0)) [
      | inl no_key ↦ Resolution.nobody (ground arith) (ground arith)
      | inr some_key ↦ elim (Option-cases (r.tgid_index key)) [
        | inl missing ↦ Resolution.newcomer missing (ground arith)
        | inr (id, held) ↦
            let (e, found, live, keyed) = c.indexed key id held in
            let holder : IsHolder key id e r = record {
              held = held;
              found = found;
              live = live;
              keyed = keyed;
            } in
            elim (Bool-cases (is_reused proc e key now_ns).0) [
              | inl other ↦ Resolution.reused id e holder (ground arith)
              | inr same ↦ Resolution.known id e holder (ground arith)
            ]
      ]
    ]

module _ (proc : Proc) (actor : ActorIdentity) (now_ns : ℕ) (rich : Bool) (r : EntityRegistry)
    (id : ℕ) (e : ProcessEntity) (named : key_for actor.tgid actor.pid ≢ 0)
    (holder : IsHolder (key_for actor.tgid actor.pid) id e r) where
  pub resolve_process-known :
      (is_reused proc e (key_for actor.tgid actor.pid) now_ns).0 ≡ false
      → resolve_process proc actor now_ns rich r
        ≡ (id, store id (seen_again proc e actor now_ns rich) r)
  unfolding resolve_process resolve_found
  resolve_process-known same = let held = holder.held in let found = holder.found in ground arith

  pub resolve_process-reused :
      (is_reused proc e (key_for actor.tgid actor.pid) now_ns).0 ≡ true
      → resolve_process proc actor now_ns rich r
        ≡ create_process proc
            (key_for actor.tgid actor.pid)
            actor
            now_ns
            (retired proc e actor now_ns id r)
  unfolding resolve_process resolve_found
  resolve_process-reused other = let held = holder.held in let found = holder.found in ground arith
