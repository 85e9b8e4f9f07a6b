-- ===== src/Model/Normalizer.antt =====
-- src/model/normalizer.cpp. A `std::string` made from a byte buffer is what stands before its first
-- NUL; every buffer of a record has one.
use e_trace_gen_e_bpfevent_t.Base.{
  ℕ, pos, negsuc, [], false, not, ◌||◌, ◌==◌, if◌then◌else◌, is_nonneg, set, get_or, c_str,
}
use e_trace_gen_e_bpfevent_t.Schema.{EventHeader, Event, ProcessEvent, header}
use e_trace_gen_e_bpfevent_t.Schema.Kinds.{
  process_exec, process_fork, process_exit, process_clone, process_clone3, process_vfork,
  file_openat, file_unlinkat, file_renameat2, network_socket, network_socketpair, network_connect,
  network_accept, network_accept4, network_bind, network_listen, network_close, network_sendto,
  network_sendmsg, network_write, network_writev, network_sendmmsg, network_recvfrom,
  network_recvmsg, network_read, network_readv, network_recvmmsg, network_shutdown,
}
use e_trace_gen_e_bpfevent_t.Model.Canonical.{
  EntityKind, CanonicalDomain, CanonicalAction, ActorIdentity, CanonicalEvent,
}

unfoldable pub make_actor : EventHeader → ActorIdentity
make_actor hdr = record {
  pid = hdr.pid;
  tgid = hdr.tgid;
  ppid = hdr.ppid;
  uid = hdr.uid;
  gid = hdr.gid;
  comm = set hdr.comm 15 0;
}

unfoldable pub process_action : ℕ → CanonicalAction
process_action kind =
    if kind == process_exec
    then CanonicalAction.process_execed
    else if kind == process_exit
    then CanonicalAction.process_exited
    else if kind == process_fork
        || kind == process_clone
        || kind == process_clone3
        || kind == process_vfork
    then CanonicalAction.process_started
    else CanonicalAction.unknown

unfoldable pub file_action : ℕ → CanonicalAction
file_action kind =
    if kind == file_openat
    then CanonicalAction.file_opened
    else if kind == file_unlinkat
    then CanonicalAction.file_deleted
    else if kind == file_renameat2
    then CanonicalAction.file_renamed
    else CanonicalAction.unknown

unfoldable pub network_action : ℕ → CanonicalAction
network_action kind =
    if kind == network_socket || kind == network_socketpair
    then CanonicalAction.socket_created
    else if kind == network_connect
    then CanonicalAction.socket_connected
    else if kind == network_accept || kind == network_accept4
    then CanonicalAction.socket_accepted
    else if kind == network_bind
    then CanonicalAction.socket_bound
    else if kind == network_listen
    then CanonicalAction.socket_listened
    else if kind == network_close
    then CanonicalAction.socket_closed
    else if kind == network_sendto
        || kind == network_sendmsg
        || kind == network_write
        || kind == network_writev
        || kind == network_sendmmsg
    then CanonicalAction.socket_sent
    else if kind == network_recvfrom
        || kind == network_recvmsg
        || kind == network_read
        || kind == network_readv
        || kind == network_recvmmsg
    then CanonicalAction.socket_received
    else if kind == network_shutdown
    then CanonicalAction.socket_shutdown
    else CanonicalAction.unknown

-- The fields that `Normalize` sets for every family, over the defaults.
abbrev pub common_event : Event → CanonicalEvent
common_event raw = record {
  ts_ns = (header raw).ts_ns;
  domain = CanonicalDomain.process;
  action = CanonicalAction.unknown;
  actor = make_actor (header raw);
  object = record { path = []; path_to = []; fd = negsuc 0; flow_id = 0; child_pid = 0 };
  subject = record { kind = EntityKind.process; id = 0 };
  object_ref = record { kind = EntityKind.unknown; id = 0 };
  outcome = pos 0;
  outcome_is_error = false;
  exec_path_hint = [];
  raw = raw;
}

-- The process branch after the domain and the hint.
abbrev pub normalize_process : ProcessEvent → CanonicalAction → CanonicalEvent → CanonicalEvent
normalize_process ev CanonicalAction.process_started out = record out {
  object_ref = record (out.object_ref) { kind = EntityKind.process };
  object = record (out.object) { child_pid = ev.child_pid };
}
normalize_process ev CanonicalAction.process_exited out = record out { outcome = pos ev.exit_code }
normalize_process ev _ out = out

-- `Normalizer::Normalize`
unfoldable pub normalize : Event → CanonicalEvent
normalize (Event.process ev) =
    normalize_process ev (process_action ev.kind) (record (common_event (Event.process ev)) {
      action = process_action ev.kind;
      exec_path_hint = if get_or ev.exec_path 0 0 == 0 then [] else c_str ev.exec_path;
    })
normalize (Event.file ev) =
    let out = common_event (Event.file ev) in
    record out {
      domain = CanonicalDomain.file;
      action = file_action ev.kind;
      object_ref = record (out.object_ref) { kind = EntityKind.file };
      object = record (out.object) {
        path = c_str ev.path_a;
        path_to = if ev.kind == file_renameat2 then c_str ev.path_b else [];
      };
      outcome = ev.ret;
      outcome_is_error = not (is_nonneg ev.ret);
    }
normalize (Event.syscall ev) = record (common_event (Event.syscall ev)) {
  domain = CanonicalDomain.syscall;
  action = CanonicalAction.syscall_invoked;
  outcome = ev.ret;
  outcome_is_error = not (is_nonneg ev.ret);
}
normalize (Event.network ev) =
    let out = common_event (Event.network ev) in
    record out {
      domain = CanonicalDomain.network;
      action = network_action ev.kind;
      object_ref = record (out.object_ref) { kind = EntityKind.socket };
      object = record (out.object) { fd = ev.fd; flow_id = ev.flow_id };
      outcome = ev.ret;
      outcome_is_error = not (is_nonneg ev.ret);
    }
