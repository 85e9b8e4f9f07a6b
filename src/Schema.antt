-- ===== src/Schema.antt =====
-- include/event_schema.h: the event contract that the BPF programs and the decoder share.
-- Numbers are `uint32_t` and `uint64_t` below their bounds, ℤ the signed fields, lists of numbers
-- the byte buffers.
pub mod Kinds
use e_trace_gen_e_bpfevent_t.Base.{ℕ, ℤ, List}

pub record EventHeader : Type 0 where
  pub ts_ns : ℕ
  pub type : ℕ
  pub size : ℕ
  pub pid : ℕ
  pub tgid : ℕ
  pub ppid : ℕ
  pub uid : ℕ
  pub gid : ℕ
  pub comm : List ℕ

pub record ProcessEvent : Type 0 where
  pub hdr : EventHeader
  pub kind : ℕ
  pub exit_code : ℕ
  pub child_pid : ℕ
  pub filename : List ℕ
  pub exec_path : List ℕ
  pub cmdline : List ℕ
  pub cwd : List ℕ
  pub parent_comm : List ℕ
  pub start_time_ticks : ℕ

pub record FileEvent : Type 0 where
  pub hdr : EventHeader
  pub kind : ℕ
  pub dfd : ℤ
  pub flags : ℤ
  pub mode : ℤ
  pub ret : ℤ
  pub path_a : List ℕ
  pub path_b : List ℕ

pub record SyscallEvent : Type 0 where
  pub hdr : EventHeader
  pub is_enter : ℕ
  pub syscall_nr : ℤ
  pub arg0 : ℤ
  pub arg1 : ℤ
  pub arg2 : ℤ
  pub ret : ℤ

pub record NetworkEndpoint : Type 0 where
  pub family : ℕ
  pub port : ℕ
  pub addr_len : ℕ
  pub addr : List ℕ
  pub path : List ℕ

pub record NetworkEvent : Type 0 where
  pub hdr : EventHeader
  pub kind : ℕ
  pub fd : ℤ
  pub peer_fd : ℤ
  pub ret : ℤ
  pub domain : ℤ
  pub sock_type : ℤ
  pub protocol : ℤ
  pub flags : ℤ
  pub backlog : ℤ
  pub how : ℤ
  pub opt_level : ℤ
  pub opt_name : ℤ
  pub opt_len : ℤ
  pub optval_prefix : List ℕ
  pub flow_id : ℕ
  pub socket_id : ℕ
  pub direction : ℕ
  pub transport : ℕ
  pub bytes_requested : ℕ
  pub bytes_transferred : ℕ
  pub bytes_captured : ℕ
  pub bytes_truncated : ℕ
  pub local : NetworkEndpoint
  pub remote : NetworkEndpoint

-- The four payloads.
pub data Event : Type 0 where
  process : ProcessEvent → Event
  file : FileEvent → Event
  syscall : SyscallEvent → Event
  network : NetworkEvent → Event

abbrev pub header : Event → EventHeader
header (process ev) = ev.hdr
header (file ev) = ev.hdr
header (syscall ev) = ev.hdr
header (network ev) = ev.hdr

-- `sizeof` of each struct, under the natural alignment of the LP64 ABI.
abbrev pub sizeof_event_header : ℕ
sizeof_event_header = 56

abbrev pub sizeof_process_event : ℕ
sizeof_process_event = 1120

abbrev pub sizeof_file_event : ℕ
sizeof_file_event = 592

abbrev pub sizeof_syscall_event : ℕ
sizeof_syscall_event = 96

abbrev pub sizeof_network_event : ℕ
sizeof_network_event = 448
