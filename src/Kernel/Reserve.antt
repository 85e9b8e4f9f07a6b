-- ===== src/Kernel/Reserve.antt =====
-- Ring buffer records of bpf/event_logger_common.bpf.h: headers, reservation and initial contents.
use e_trace_gen_e_bpfevent_t.Base.{ℕ, pos, Option, none, some, u32, shr, set, replicate}
use e_trace_gen_e_bpfevent_t.Schema.{
  EventHeader, ProcessEvent, FileEvent, SyscallEvent, NetworkEndpoint, NetworkEvent,
  sizeof_process_event, sizeof_file_event, sizeof_syscall_event, sizeof_network_event,
}
use e_trace_gen_e_bpfevent_t.Schema.Kinds.{
  event_type_process, event_type_file, event_type_syscall, event_type_network,
  network_direction_unknown, network_transport_unknown,
}
use e_trace_gen_e_bpfevent_t.Kernel.State.{KernelState, stat_inc, stat_ringbuf_reserve_fail}
use e_trace_gen_e_bpfevent_t.Kernel.Env.{Env}
use e_trace_gen_e_bpfevent_t.Kernel.Gate.{tgid_of}

unfoldable pub get_current_ppid : Env → ℕ
get_current_ppid env = elim env.current_task [ none ↦ 0 | some task ↦ u32 task.real_parent_tgid ]

unfoldable pub get_current_exit_code : Env → ℕ
get_current_exit_code env = elim env.current_task [ none ↦ 0 | some task ↦ u32 task.exit_code ]

-- `fill_header`, which writes every field and sets `size` to 0.
unfoldable pub fill_header : Env → ℕ → EventHeader
unfolding get_current_ppid
fill_header env type = record {
  ts_ns = env.ktime_at_reserve;
  type = type;
  size = 0;
  pid = u32 env.current_pid_tgid;
  tgid = tgid_of env.current_pid_tgid;
  ppid = get_current_ppid env;
  uid = u32 env.current_uid_gid;
  gid = u32 (shr env.current_uid_gid 32);
  comm = env.current_comm;
}

-- A slot, or a counted failure.
abbrev pub count_reserve {ℓ} : {A : Type ℓ} → Env → Option A → KernelState → KernelState
count_reserve env (some ev) s = s
count_reserve env none s = stat_inc env.cpu stat_ringbuf_reserve_fail s

-- What `reserve_process_event` writes over the slot's old contents.
unfoldable pub init_process_event : Env → ℕ → ProcessEvent → ProcessEvent
unfolding fill_header
init_process_event env kind ev = record ev {
  hdr = record (fill_header env event_type_process) { size = sizeof_process_event };
  kind = kind;
  exit_code = 0;
  child_pid = 0;
  filename = set ev.filename 0 0;
  exec_path = set ev.exec_path 0 0;
  cmdline = set ev.cmdline 0 0;
  cwd = set ev.cwd 0 0;
  parent_comm = set ev.parent_comm 0 0;
  start_time_ticks = 0;
}

abbrev pub reserve_process_event : Env → ℕ → KernelState → Option ProcessEvent × KernelState
reserve_process_event env kind s = (
  elim env.reserved_process [ none ↦ none | some slot ↦ some (init_process_event env kind slot) ],
  count_reserve env env.reserved_process s,
)

unfoldable pub init_file_event : Env → ℕ → FileEvent → FileEvent
unfolding fill_header
init_file_event env kind ev = record ev {
  hdr = record (fill_header env event_type_file) { size = sizeof_file_event };
  kind = kind;
  dfd = pos 0;
  flags = pos 0;
  mode = pos 0;
  ret = pos 0;
  path_a = set ev.path_a 0 0;
  path_b = set ev.path_b 0 0;
}

abbrev pub reserve_file_event : Env → ℕ → KernelState → Option FileEvent × KernelState
reserve_file_event env kind s = (
  elim env.reserved_file [ none ↦ none | some slot ↦ some (init_file_event env kind slot) ],
  count_reserve env env.reserved_file s,
)

unfoldable pub init_syscall_event : Env → SyscallEvent
unfolding fill_header
init_syscall_event env = record {
  hdr = record (fill_header env event_type_syscall) { size = sizeof_syscall_event };
  is_enter = 0;
  syscall_nr = pos 0;
  arg0 = pos 0;
  arg1 = pos 0;
  arg2 = pos 0;
  ret = pos 0;
}

abbrev pub reserve_syscall_event : Env → KernelState → Option SyscallEvent × KernelState
reserve_syscall_event env s = (
  elim env.reserved_syscall [ none ↦ none | some slot ↦ some (init_syscall_event env) ],
  count_reserve env env.reserved_syscall s,
)

-- `reset_network_endpoint`: of the path only the first byte is written.
unfoldable pub reset_network_endpoint : NetworkEndpoint → NetworkEndpoint
reset_network_endpoint endpoint = record endpoint {
  family = 0;
  port = 0;
  addr_len = 0;
  path = set endpoint.path 0 0;
  addr = replicate 16 0;
}

unfoldable pub init_network_event : Env → ℕ → NetworkEvent → NetworkEvent
unfolding fill_header reset_network_endpoint
init_network_event env kind ev = record {
  hdr = record (fill_header env event_type_network) { size = sizeof_network_event };
  kind = kind;
  fd = pos 0;
  peer_fd = pos 0;
  ret = pos 0;
  domain = pos 0;
  sock_type = pos 0;
  protocol = pos 0;
  flags = pos 0;
  backlog = pos 0;
  how = pos 0;
  opt_level = pos 0;
  opt_name = pos 0;
  opt_len = pos 0;
  optval_prefix = replicate 16 0;
  flow_id = 0;
  socket_id = 0;
  direction = network_direction_unknown;
  transport = network_transport_unknown;
  bytes_requested = 0;
  bytes_transferred = 0;
  bytes_captured = 0;
  bytes_truncated = 0;
  local = reset_network_endpoint ev.local;
  remote = reset_network_endpoint ev.remote;
}

abbrev pub reserve_network_event : Env → ℕ → KernelState → Option NetworkEvent × KernelState
reserve_network_event env kind s = (
  elim env.reserved_network [ none ↦ none | some slot ↦ some (init_network_event env kind slot) ],
  count_reserve env env.reserved_network s,
)
