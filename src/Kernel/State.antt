-- ===== src/Kernel/State.antt =====
-- The maps of bpf/event_logger_common.bpf.h. `events` lists the records submitted to the ring
-- buffer, oldest first; the counters of `bpf_stats` are one array for each CPU.
use e_trace_gen_e_bpfevent_t.Base.{
  ℕ, ℤ, List, Contents, BpfMap, IsBpfMap, u64, ltb, ◌==◌, ◌+◌, if◌then◌else◌,
}
use e_trace_gen_e_bpfevent_t.Schema.{Event, FileEvent, SyscallEvent, NetworkEvent}

-- `enum bpf_stat_key`
abbrev pub stat_ringbuf_reserve_fail : ℕ
stat_ringbuf_reserve_fail = 0

abbrev pub stat_file_state_save_fail : ℕ
stat_file_state_save_fail = 1

abbrev pub stat_file_state_collision : ℕ
stat_file_state_collision = 2

abbrev pub stat_file_state_miss : ℕ
stat_file_state_miss = 3

abbrev pub stat_syscall_state_save_fail : ℕ
stat_syscall_state_save_fail = 4

abbrev pub stat_syscall_state_collision : ℕ
stat_syscall_state_collision = 5

abbrev pub stat_syscall_state_miss : ℕ
stat_syscall_state_miss = 6

abbrev pub stat_network_state_save_fail : ℕ
stat_network_state_save_fail = 7

abbrev pub stat_network_state_collision : ℕ
stat_network_state_collision = 8

abbrev pub stat_network_state_miss : ℕ
stat_network_state_miss = 9

abbrev pub stat_max : ℕ
stat_max = 10

-- `pad` is 0 in every key that the code builds.
pub record FileStateKey : Type 0 where
  pub pid_tgid : ℕ
  pub kind : ℕ

pub record SyscallStateKey : Type 0 where
  pub pid_tgid : ℕ
  pub syscall_nr : ℤ

pub record NetworkStateKey : Type 0 where
  pub pid_tgid : ℕ
  pub kind : ℕ

pub record NetworkStateValue : Type 0 where
  pub ev : NetworkEvent
  pub sockaddr_ptr : ℕ
  pub sockaddr_len_ptr : ℕ
  pub sockaddr_len : ℕ
  pub peer_fd_ptr : ℕ
  pub optval_ptr : ℕ
  pub optlen_ptr : ℕ
  pub mmsg_ptr : ℕ
  pub mmsg_count : ℕ

pub record SocketFdKey : Type 0 where
  pub tgid : ℕ
  pub fd : ℕ

pub record SocketFdValue : Type 0 where
  pub is_socket : ℕ

pub record KernelState : Type 0 where
  pub events : List Event
  pub bpf_stats : ℕ → ℕ → ℕ
  pub file_probe_enabled : ℕ → ℕ
  pub process_probe_enabled : ℕ → ℕ
  pub syscall_probe_enabled : ℕ → ℕ
  pub network_probe_enabled : ℕ → ℕ
  pub suppress_tgid : ℕ → ℕ
  pub file_enter_state : Contents FileStateKey FileEvent
  pub syscall_enter_state : Contents SyscallStateKey SyscallEvent
  pub network_enter_state : Contents NetworkStateKey NetworkStateValue
  pub socket_fd_state : Contents SocketFdKey SocketFdValue

-- The kernel's update and delete helpers for the four maps that the programs write.
pub record MapHelpers : Type 0 where
  pub file_map : BpfMap FileStateKey FileEvent
  pub syscall_map : BpfMap SyscallStateKey SyscallEvent
  pub network_map : BpfMap NetworkStateKey NetworkStateValue
  pub socket_map : BpfMap SocketFdKey SocketFdValue

pub record IsMapHelpers (h : MapHelpers) : Type 0 where
  pub file_laws : IsBpfMap h.file_map
  pub syscall_laws : IsBpfMap h.syscall_map
  pub network_laws : IsBpfMap h.network_map
  pub socket_laws : IsBpfMap h.socket_map

-- `stat_inc` on the CPU that runs the handler: a key past the array counts nothing.
abbrev pub count_up : (ℕ → ℕ → ℕ) → ℕ → ℕ → ℕ → ℕ → ℕ
count_up stats cpu key c k =
    if c == cpu then (if k == key then u64 (stats c k + 1) else stats c k) else stats c k

unfoldable pub stat_inc : ℕ → ℕ → KernelState → KernelState
stat_inc cpu key s =
    if ltb key stat_max then record s { bpf_stats = count_up s.bpf_stats cpu key } else s
