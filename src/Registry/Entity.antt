-- ===== src/Registry/Entity.antt =====
-- src/registry/entity_registry.h and .cpp: an entity, and what its fields are filled from.
use e_trace_gen_e_bpfevent_t.Base.{
  false, true, ℕ, ℤ, Bool, not, ◌&&◌, ◌==◌, if◌then◌else◌, List, [], ◌∷◌, get_or, c_str, codes,
}
use e_trace_gen_e_bpfevent_t.Model.Canonical.{ActorIdentity}
use e_trace_gen_e_bpfevent_t.Util.Proc.{
  Proc, read_proc_symlink, read_text_file, normalize_cmdline, rstrip, proc_path,
  read_start_time_ticks,
}

-- `observed_after_startup`, which nothing reads or writes, is left out.
pub record ProcessEntity : Type 0 where
  pub id : ℕ
  pub pid : ℕ
  pub tgid : ℕ
  pub ppid : ℕ
  pub uid : ℕ
  pub gid : ℕ
  pub comm : List ℕ
  pub exec_path : List ℕ
  pub cmdline : List ℕ
  pub cwd : List ℕ
  pub parent_comm : List ℕ
  pub start_time_ticks : ℕ
  pub parent_id : ℕ
  pub first_seen_ns : ℕ
  pub last_seen_ns : ℕ
  pub exited : Bool
  pub exit_ns : ℕ
  pub exit_code : ℤ
  pub last_identity_check_ns : ℕ

abbrev pub is_empty : List ℕ → Bool
is_empty [] = true
is_empty (c ∷ s) = false

-- `UpdateFast`
unfoldable pub update_fast : ProcessEntity → ActorIdentity → ℕ → ProcessEntity
update_fast e a now_ns = record e {
  pid = a.pid;
  tgid = a.tgid;
  ppid = a.ppid;
  uid = a.uid;
  gid = a.gid;
  comm = if not (get_or a.comm 0 0 == 0) then c_str a.comm else e.comm;
  last_seen_ns = now_ns;
}

-- The new text, if there is one.
abbrev pub text_or : List ℕ → List ℕ → List ℕ
text_or new old = if not (is_empty new) then new else old

-- `RefreshRich`
unfoldable pub refresh_rich : Proc → ProcessEntity → ℕ → ProcessEntity
unfolding proc_path read_proc_symlink read_text_file normalize_cmdline rstrip read_start_time_ticks
refresh_rich proc e key = if key == 0 then e else record e {
  exec_path = text_or (read_proc_symlink proc (proc_path key (codes "/exe"))) e.exec_path;
  cwd = text_or (read_proc_symlink proc (proc_path key (codes "/cwd"))) e.cwd;
  cmdline =
      text_or (normalize_cmdline (read_text_file proc (proc_path key (codes "/cmdline"))))
        e.cmdline;
  comm =
      if is_empty e.comm
      then text_or (rstrip (read_text_file proc (proc_path key (codes "/comm")))) e.comm
      else e.comm;
  parent_comm =
      if is_empty e.parent_comm && not (e.ppid == 0)
      then text_or (rstrip (read_text_file proc (proc_path e.ppid (codes "/comm")))) e.parent_comm
      else e.parent_comm;
  start_time_ticks =
      if e.start_time_ticks == 0 then read_start_time_ticks proc key else e.start_time_ticks;
}

-- The key of the live index: the thread group, or the task if there is none.
abbrev pub key_for : ℕ → ℕ → ℕ
key_for tgid pid = if not (tgid == 0) then tgid else pid

abbrev pub key_of : ProcessEntity → ℕ
key_of e = key_for e.tgid e.pid
