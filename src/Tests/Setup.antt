-- ===== src/Tests/Setup.antt =====
-- A map that never evicts and never fails, a task's circumstances, and the state after loading.
use e_trace_gen_e_bpfevent_t.Base.{
  ℕ, ℤ, pos, negsuc, List, [], ◌≡◌, ◌↔◌, inl, inr, refl, true, false, Bool, Bool-cases, none, some,
  ◌==◌, ◌&&◌, ◌+◌, ◌*◌, ◌^◌, replicate, if◌then◌else◌, BpfMap, IsBpfMap, arith,
}
use e_trace_gen_e_bpfevent_t.Schema.{
  EventHeader, ProcessEvent, FileEvent, SyscallEvent, NetworkEndpoint, NetworkEvent,
}
use e_trace_gen_e_bpfevent_t.Kernel.State.{
  KernelState, FileStateKey, SyscallStateKey, NetworkStateKey, SocketFdKey, MapHelpers,
  IsMapHelpers,
}
use e_trace_gen_e_bpfevent_t.Kernel.Env.{Env, SysEnter, SysExit}
use e_trace_gen_e_bpfevent_t.Kernel.Sound.{IsSound}

module _ {K V : Type 0} (same : K → K → Bool) where
  -- A hash map with room for every key.
  abbrev pub roomy_map : BpfMap K V
  roomy_map = record {
    update_elem = λ c k v. (pos 0, λ j. if same j k then some v else c j);
    delete_elem = λ c k. (pos 0, λ j. if same j k then none else c j);
  }

  pub roomy_map-IsBpfMap : ((j k : K) → (same j k ≡ true) ↔ (j ≡ k)) → IsBpfMap (roomy_map)
  roomy_map-IsBpfMap decides = record {
    update_stores = λ c k v ok. rw ((decides k k).1 refl) refl;
    update_fails = λ c k v failed. ground arith;
    update_others = λ c k v j other. elim (Bool-cases (same j k)) [
      | inl eq ↦ absurd (other ((decides j k).0 eq))
      | inr ne ↦ inl (rw ne refl)
    ];
    delete_removes = λ c k. rw ((decides k k).1 refl) refl;
    delete_others = λ c k j other. elim (Bool-cases (same j k)) [
      | inl eq ↦ absurd (other ((decides j k).0 eq))
      | inr ne ↦ rw ne refl
    ];
  }

abbrev same_int : ℤ → ℤ → Bool
same_int (pos m) (pos n) = m == n
same_int (negsuc m) (negsuc n) = m == n
same_int (pos m) (negsuc n) = false
same_int (negsuc m) (pos n) = false

abbrev same_file : FileStateKey → FileStateKey → Bool
same_file j k = j.pid_tgid == k.pid_tgid && j.kind == k.kind

abbrev same_syscall : SyscallStateKey → SyscallStateKey → Bool
same_syscall j k = j.pid_tgid == k.pid_tgid && same_int j.syscall_nr k.syscall_nr

abbrev same_network : NetworkStateKey → NetworkStateKey → Bool
same_network j k = j.pid_tgid == k.pid_tgid && j.kind == k.kind

abbrev same_fd : SocketFdKey → SocketFdKey → Bool
same_fd j k = j.tgid == k.tgid && j.fd == k.fd

same_file-decides : (j k : FileStateKey) → (same_file j k ≡ true) ↔ (j ≡ k)
same_file-decides j k = ground arith

same_int-decides : (m n : ℤ) → (same_int m n ≡ true) ↔ (m ≡ n)
same_int-decides m n = ground arith

same_syscall-decides : (j k : SyscallStateKey) → (same_syscall j k ≡ true) ↔ (j ≡ k)
same_syscall-decides j k = ground arith

same_network-decides : (j k : NetworkStateKey) → (same_network j k ≡ true) ↔ (j ≡ k)
same_network-decides j k = ground arith

same_fd-decides : (j k : SocketFdKey) → (same_fd j k ≡ true) ↔ (j ≡ k)
same_fd-decides j k = ground arith

abbrev pub roomy : MapHelpers
roomy = record {
  file_map = roomy_map same_file;
  syscall_map = roomy_map same_syscall;
  network_map = roomy_map same_network;
  socket_map = roomy_map same_fd;
}

pub roomy-IsMapHelpers : IsMapHelpers roomy
roomy-IsMapHelpers = record {
  file_laws = roomy_map-IsBpfMap same_file same_file-decides;
  syscall_laws = roomy_map-IsBpfMap same_syscall same_syscall-decides;
  network_laws = roomy_map-IsBpfMap same_network same_network-decides;
  socket_laws = roomy_map-IsBpfMap same_fd same_fd-decides;
}

abbrev blank_header : EventHeader
blank_header = record {
  ts_ns = 0;
  type = 0;
  size = 0;
  pid = 0;
  tgid = 0;
  ppid = 0;
  uid = 0;
  gid = 0;
  comm = replicate 16 0;
}

abbrev pub process_slot : ProcessEvent
process_slot = record {
  hdr = blank_header;
  kind = 0;
  exit_code = 0;
  child_pid = 0;
  filename = replicate 256 0;
  exec_path = replicate 256 0;
  cmdline = replicate 256 0;
  cwd = replicate 256 0;
  parent_comm = replicate 16 0;
  start_time_ticks = 0;
}

abbrev pub file_slot : FileEvent
file_slot = record {
  hdr = blank_header;
  kind = 0;
  dfd = pos 0;
  flags = pos 0;
  mode = pos 0;
  ret = pos 0;
  path_a = replicate 256 0;
  path_b = replicate 256 0;
}

abbrev pub syscall_slot : SyscallEvent
syscall_slot = record {
  hdr = blank_header;
  is_enter = 0;
  syscall_nr = pos 0;
  arg0 = pos 0;
  arg1 = pos 0;
  arg2 = pos 0;
  ret = pos 0;
}

abbrev pub endpoint_slot : NetworkEndpoint
endpoint_slot = record {
  family = 0;
  port = 0;
  addr_len = 0;
  addr = replicate 16 0;
  path = replicate 108 0;
}

abbrev pub network_slot : NetworkEvent
network_slot = record {
  hdr = blank_header;
  kind = 0;
  fd = pos 0;
  peer_fd = pos 0;
  ret = pos 0;
  domain = pos 0;
  sock_type = pos 0;
  protocol = pos 0;
  flags = pos 0;
  backlog = pos 0;
  how = pos 0;
  opt_level = pos 0;
  opt_name = pos 0;
  opt_len = pos 0;
  optval_prefix = replicate 16 0;
  flow_id = 0;
  socket_id = 0;
  direction = 0;
  transport = 0;
  bytes_requested = 0;
  bytes_transferred = 0;
  bytes_captured = 0;
  bytes_truncated = 0;
  local = endpoint_slot;
  remote = endpoint_slot;
}

-- Task `pid` of process `pid`, at time `now`, with user memory that reads as `memory`.
abbrev pub task_at : ℕ → ℕ → List ℕ → Env
task_at pid now memory = record {
  cpu = 0;
  current_pid_tgid = pid * 2 ^ 32 + pid;
  current_uid_gid = 1000 * 2 ^ 32 + 1000;
  current_comm = replicate 16 97;
  current_task = some (record { real_parent_tgid = 1; exit_code = 0 });
  ktime_at_reserve = now;
  ktime_at_exit = now + 5;
  reserved_process = some process_slot;
  reserved_file = some file_slot;
  reserved_syscall = some syscall_slot;
  reserved_network = some network_slot;
  scratch_available = true;
  probe_read_user = λ addr size. (pos 0, memory);
  probe_read_user_str = λ addr size old. (pos 6, memory);
  probe_read_kernel_str = λ addr size old. (pos 6, memory);
}

abbrev pub enter_args : SysEnter
enter_args = record {
  id = pos 257;
  args0 = 3;
  args1 = 4096;
  args2 = 16;
  args3 = 0;
  args4 = 0;
  args5 = 0;
}

abbrev pub exit_with : ℕ → SysExit
exit_with n = record { id = pos 257; ret = pos n }

-- Everything on, and process 99 suppressed.
abbrev pub loaded : KernelState
loaded = record {
  events = [];
  bpf_stats = λ c k. 0;
  file_probe_enabled = λ k. 1;
  process_probe_enabled = λ k. 1;
  syscall_probe_enabled = λ k. 1;
  network_probe_enabled = λ k. 1;
  suppress_tgid = λ k. 99;
  file_enter_state = λ k. none;
  syscall_enter_state = λ k. none;
  network_enter_state = λ k. none;
  socket_fd_state = λ k. none;
}

pub loaded-IsSound : IsSound loaded
loaded-IsSound = record {
  file_entries = λ k v found. ground arith;
  syscall_entries = λ k v found. ground arith;
  network_entries = λ k v found. ground arith;
}
