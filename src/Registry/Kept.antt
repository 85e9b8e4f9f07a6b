-- ===== src/Registry/Kept.antt =====
-- What the updates of an entity keep of what the index stands on.
use e_trace_gen_e_bpfevent_t.Base.{ℕ, ◌≡◌, inl, inr, false, ◌==◌, arith, refl, Bool-cases}
use e_trace_gen_e_bpfevent_t.Util.Proc.{Proc}
use e_trace_gen_e_bpfevent_t.Model.Canonical.{ActorIdentity}
use e_trace_gen_e_bpfevent_t.Registry.Entity.{
  ProcessEntity, key_of, key_for, update_fast, refresh_rich,
}
use e_trace_gen_e_bpfevent_t.Registry.Table.{is_reused, fresh_entity, new_entity}

-- The fields that the index stands on are the actor's.
pub update_fast-keeps :
    (e : ProcessEntity) (a : ActorIdentity) (now_ns : ℕ)
    → ((update_fast e a now_ns).id ≡ e.id)
      × ((update_fast e a now_ns).exited ≡ e.exited)
      × (key_of (update_fast e a now_ns) ≡ key_for a.tgid a.pid)
unfolding update_fast
update_fast-keeps e a now_ns = (refl, refl, refl)

pub refresh_rich-keeps :
    (proc : Proc) (e : ProcessEntity) (key : ℕ)
    → ((refresh_rich proc e key).id ≡ e.id)
      × ((refresh_rich proc e key).exited ≡ e.exited)
      × (key_of (refresh_rich proc e key) ≡ key_of e)
unfolding refresh_rich
refresh_rich-keeps proc e key = elim (Bool-cases (key == 0)) [
  | inl zero_key ↦ ground arith
  | inr some_key ↦ ground arith
]

pub fresh_entity_lem :
    (proc : Proc) (key : ℕ) (actor : ActorIdentity) (now_ns id : ℕ)
    → ((fresh_entity proc key actor now_ns id).id ≡ id)
      × ((fresh_entity proc key actor now_ns id).exited ≡ false)
      × (key_of (fresh_entity proc key actor now_ns id) ≡ key_for actor.tgid actor.pid)
unfolding fresh_entity update_fast
fresh_entity_lem proc key actor now_ns id =
    let made = record (update_fast (new_entity id) actor now_ns) {
      first_seen_ns = now_ns;
      last_identity_check_ns = now_ns;
    } in
    refresh_rich-keeps proc made key

pub is_reused-keeps :
    (proc : Proc) (e : ProcessEntity) (key now_ns : ℕ)
    → ((is_reused proc e key now_ns).1.id ≡ e.id)
      × ((is_reused proc e key now_ns).1.exited ≡ e.exited)
      × (key_of (is_reused proc e key now_ns).1 ≡ key_of e)
unfolding is_reused
is_reused-keeps proc e key now_ns = ground arith
