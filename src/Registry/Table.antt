-- ===== src/Registry/Table.antt =====
-- src/registry/entity_registry.cpp: the operations of `EntityRegistry`. /proc answers the same
-- during one call of `Ingest`.
use e_trace_gen_e_bpfevent_t.Base.{
  replicate, ℕ, ℤ, pos, ◌+◌, ◌-◌, ◌*◌, ◌^◌, Bool, true, false, not, ◌==◌, ltb, leb, if◌then◌else◌,
  List, [], ◌∷◌, Option, none, some, length, Contents, u64, find, insert, erase,
}
use e_trace_gen_e_bpfevent_t.Util.Proc.{Proc, read_start_time_ticks}
use e_trace_gen_e_bpfevent_t.Model.Canonical.{ActorIdentity}
use e_trace_gen_e_bpfevent_t.Registry.Entity.{
  ProcessEntity, update_fast, refresh_rich, key_for, key_of,
}

-- The entities stand in the order of insertion. It matters only where two entities were last seen
-- at the same time and one of them is evicted; the iteration order of the code's map is the
-- standard library's.
pub record EntityRegistry : Type 0 where
  pub processes_by_id : List (ℕ × ProcessEntity)
  pub tgid_index : Contents ℕ ℕ
  pub next_id : ℕ

abbrev pub empty_registry : EntityRegistry
empty_registry = record { processes_by_id = []; tgid_index = λ k. none; next_id = 1 }

abbrev pub max_entries : ℕ
max_entries = 8192

abbrev pub identity_check_ns : ℕ
identity_check_ns = 500 * 1000 * 1000

-- `FindProcess`
abbrev pub find_process : ℕ → EntityRegistry → Option ProcessEntity
find_process id r = find id r.processes_by_id

-- A write through an iterator or a reference to an entity.
abbrev pub store : ℕ → ProcessEntity → EntityRegistry → EntityRegistry
store id e r = record r { processes_by_id = insert id e r.processes_by_id }

abbrev pub set_index : ℕ → Option ℕ → EntityRegistry → EntityRegistry
set_index key value r = record r { tgid_index = λ k. if k == key then value else r.tgid_index k }

-- Whether the entity's tgid has another process now, and the entity after the check. The
-- subtraction wraps at 64 bits.
unfoldable pub is_reused : Proc → ProcessEntity → ℕ → ℕ → Bool × ProcessEntity
is_reused proc e key now_ns =
    let checked = record e { last_identity_check_ns = now_ns } in
    let current = read_start_time_ticks proc key in
    if e.start_time_ticks == 0
    then (false, e)
    else if ltb (u64 (now_ns + (2 ^ 64 - e.last_identity_check_ns))) identity_check_ns
    then (false, e)
    else if current == 0
    then (false, checked)
    else (not (current == e.start_time_ticks), checked)

unfoldable pub retire_index : ℕ → ℕ → EntityRegistry → EntityRegistry
retire_index key id r = elim (r.tgid_index key) [
  | none ↦ r
  | some j ↦ if j == id then set_index key none r else r
]

unfoldable pub mark_exited : ℕ → ℕ → ℤ → EntityRegistry → EntityRegistry
unfolding retire_index
mark_exited id now_ns code r = elim (find_process id r) [
  | none ↦ r
  | some e ↦
      retire_index (key_of e) id
        (store id (record e { exited = true; exit_ns = now_ns; exit_code = code }) r)
]

-- The least recently seen entity, the first of several.
unfoldable pub victim :
    List (ℕ × ProcessEntity) → Option (ℕ × ProcessEntity) → Option (ℕ × ProcessEntity)
victim [] best = best
victim (entry ∷ rest) none = victim rest (some entry)
victim (entry ∷ rest) (some best) =
    victim rest (some (if ltb entry.1.last_seen_ns best.1.last_seen_ns then entry else best))

unfoldable pub evict_if_needed : EntityRegistry → EntityRegistry
unfolding victim retire_index
evict_if_needed r =
    if leb (length r.processes_by_id) max_entries then r else elim (victim r.processes_by_id none) [
      | none ↦ r
      | some entry ↦
          let retired = retire_index (key_of entry.1) entry.1.id r in
          record retired { processes_by_id = erase entry.0 retired.processes_by_id }
    ]

abbrev pub new_entity : ℕ → ProcessEntity
new_entity id = record {
  id = id;
  pid = 0;
  tgid = 0;
  ppid = 0;
  uid = 0;
  gid = 0;
  comm = [];
  exec_path = [];
  cmdline = [];
  cwd = [];
  parent_comm = [];
  start_time_ticks = 0;
  parent_id = 0;
  first_seen_ns = 0;
  last_seen_ns = 0;
  exited = false;
  exit_ns = 0;
  exit_code = pos 0;
  last_identity_check_ns = 0;
}

-- The entity that `CreateProcess` stores.
unfoldable pub fresh_entity : Proc → ℕ → ActorIdentity → ℕ → ℕ → ProcessEntity
unfolding update_fast refresh_rich
fresh_entity proc key actor now_ns id =
    refresh_rich proc
      (record (update_fast (new_entity id) actor now_ns) {
        first_seen_ns = now_ns;
        last_identity_check_ns = now_ns;
      })
      key

unfoldable pub create_process : Proc → ℕ → ActorIdentity → ℕ → EntityRegistry → ℕ × EntityRegistry
unfolding fresh_entity evict_if_needed
create_process proc key actor now_ns r =
    let id = r.next_id in
    let stored =
      store id (fresh_entity proc key actor now_ns id) (record r { next_id = u64 (id + 1) }) in
    (id, evict_if_needed (set_index key (some id) stored))

-- The branches of `ResolveProcess` for a key that the index has: the entity is there, or is not.
unfoldable pub resolve_found :
    Proc
    → ActorIdentity
    → ℕ
    → Bool
    → ℕ
    → ℕ
    → Option ProcessEntity
    → EntityRegistry
    → ℕ × EntityRegistry
unfolding is_reused update_fast refresh_rich mark_exited create_process
resolve_found proc actor now_ns rich key id none r =
    create_process proc key actor now_ns (set_index key none r)
resolve_found proc actor now_ns rich key id (some e) r =
    let check = is_reused proc e key now_ns in
    let checked = store id check.1 r in
    let updated = update_fast check.1 actor now_ns in
    if not check.0
    then (id, store id (if rich then refresh_rich proc updated key else updated) r)
    else create_process proc key actor now_ns (mark_exited id now_ns (pos 0) checked)

unfoldable pub resolve_process :
    Proc → ActorIdentity → ℕ → Bool → EntityRegistry → ℕ × EntityRegistry
unfolding resolve_found create_process
resolve_process proc actor now_ns rich r =
    let key = key_for actor.tgid actor.pid in
    if key == 0 then (0, r) else elim (r.tgid_index key) [
      | none ↦ create_process proc key actor now_ns r
      | some id ↦ resolve_found proc actor now_ns rich key id (find_process id r) r
    ]

-- The actor that `ResolveChild` makes up for a child.
abbrev pub child_actor : ℕ → ActorIdentity → ActorIdentity
child_actor child_pid parent = record {
  pid = child_pid;
  tgid = child_pid;
  ppid = key_for parent.tgid parent.pid;
  uid = 0;
  gid = 0;
  comm = replicate 16 0;
}

-- The child's parent is set once.
unfoldable pub adopt : ℕ → ℕ → EntityRegistry → EntityRegistry
adopt id parent_id r = elim (find_process id r) [
  | none ↦ r
  | some e ↦ if e.parent_id == 0 then store id (record e { parent_id = parent_id }) r else r
]

unfoldable pub resolve_child :
    Proc → ℕ → ℕ → ActorIdentity → ℕ → EntityRegistry → ℕ × EntityRegistry
unfolding resolve_process adopt
resolve_child proc child_pid parent_id parent now_ns r =
    let resolved = resolve_process proc (child_actor child_pid parent) now_ns true r in
    if child_pid == 0 then (0, r) else (resolved.0, adopt resolved.0 parent_id resolved.1)
