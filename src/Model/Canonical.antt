-- ===== src/Model/Canonical.antt =====
-- src/model/canonical_event.h. `subject_process`, which only the entity registry sets, is left out;
-- strings are lists of bytes.
use e_trace_gen_e_bpfevent_t.Base.{ℕ, ℤ, List, Bool}
use e_trace_gen_e_bpfevent_t.Schema.{Event}

pub data EntityKind : Type 0 where
  unknown : EntityKind
  process : EntityKind
  file : EntityKind
  socket : EntityKind

pub record EntityRef : Type 0 where
  pub kind : EntityKind
  pub id : ℕ

pub data CanonicalDomain : Type 0 where
  process : CanonicalDomain
  file : CanonicalDomain
  syscall : CanonicalDomain
  network : CanonicalDomain

pub data CanonicalAction : Type 0 where
  unknown : CanonicalAction
  process_started process_execed process_exited : CanonicalAction
  file_opened file_deleted file_renamed : CanonicalAction
  syscall_invoked : CanonicalAction
  socket_created socket_connected socket_accepted socket_bound socket_listened : CanonicalAction
  socket_closed socket_sent socket_received socket_shutdown : CanonicalAction

pub record ActorIdentity : Type 0 where
  pub pid : ℕ
  pub tgid : ℕ
  pub ppid : ℕ
  pub uid : ℕ
  pub gid : ℕ
  pub comm : List ℕ

pub record ObjectDescriptor : Type 0 where
  pub path : List ℕ
  pub path_to : List ℕ
  pub fd : ℤ
  pub flow_id : ℕ
  pub child_pid : ℕ

pub record CanonicalEvent : Type 0 where
  pub ts_ns : ℕ
  pub domain : CanonicalDomain
  pub action : CanonicalAction
  pub actor : ActorIdentity
  pub object : ObjectDescriptor
  pub subject : EntityRef
  pub object_ref : EntityRef
  pub outcome : ℤ
  pub outcome_is_error : Bool
  pub exec_path_hint : List ℕ
  pub raw : Event
