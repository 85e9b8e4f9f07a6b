-- ===== src/Decoder/Structs.antt =====
-- include/event_schema.h: the fields of each struct in memory, and the records of their values.
use e_trace_gen_e_bpfevent_t.Base.{◌+◌, ℕ, List, [], ◌∷◌, ◌++◌}
use e_trace_gen_e_bpfevent_t.Schema.{
  EventHeader, ProcessEvent, FileEvent, SyscallEvent, NetworkEndpoint, NetworkEvent,
}
use e_trace_gen_e_bpfevent_t.Schema.Kinds.{comm_len, path_len, unix_path_len}
use e_trace_gen_e_bpfevent_t.Decoder.Layout.{
  FieldKind, FieldValue, u32, u64, i32, i64, buffer, padding, nat_at, int_at, bytes_at,
}

abbrev pub header_layout : List FieldKind
header_layout = u64 ∷ u32 ∷ u32 ∷ u32 ∷ u32 ∷ u32 ∷ u32 ∷ u32 ∷ buffer comm_len ∷ padding 4 ∷ []

abbrev pub process_layout : List FieldKind
process_layout =
    header_layout
    ++ (u32
        ∷ u32
        ∷ u32
        ∷ buffer path_len
        ∷ buffer path_len
        ∷ buffer path_len
        ∷ buffer path_len
        ∷ buffer comm_len
        ∷ padding 4
        ∷ u64
        ∷ [])

abbrev pub file_layout : List FieldKind
file_layout =
    header_layout
    ++ (u32 ∷ i32 ∷ i32 ∷ i32 ∷ i32 ∷ buffer path_len ∷ buffer path_len ∷ padding 4 ∷ [])

abbrev pub syscall_layout : List FieldKind
syscall_layout = header_layout ++ (u32 ∷ i32 ∷ i64 ∷ i64 ∷ i64 ∷ i64 ∷ [])

abbrev pub endpoint_layout : List FieldKind
endpoint_layout = u32 ∷ u32 ∷ u32 ∷ buffer 16 ∷ buffer unix_path_len ∷ []

abbrev pub network_layout : List FieldKind
network_layout =
    header_layout
    ++ (u32
        ∷ i32
        ∷ i32
        ∷ i32
        ∷ i32
        ∷ i32
        ∷ i32
        ∷ i32
        ∷ i32
        ∷ i32
        ∷ i32
        ∷ i32
        ∷ i32
        ∷ buffer 16
        ∷ padding 4
        ∷ u64
        ∷ u64
        ∷ u32
        ∷ u32
        ∷ u64
        ∷ u64
        ∷ u32
        ∷ u32
        ∷ [])
    ++ endpoint_layout
    ++ endpoint_layout

-- The record of the values of a struct: the header has the first nine.
abbrev pub to_header : List FieldValue → EventHeader
to_header vs = record {
  ts_ns = nat_at vs 0;
  type = nat_at vs 1;
  size = nat_at vs 2;
  pid = nat_at vs 3;
  tgid = nat_at vs 4;
  ppid = nat_at vs 5;
  uid = nat_at vs 6;
  gid = nat_at vs 7;
  comm = bytes_at vs 8;
}

abbrev pub to_process : List FieldValue → ProcessEvent
to_process vs = record {
  hdr = to_header vs;
  kind = nat_at vs 9;
  exit_code = nat_at vs 10;
  child_pid = nat_at vs 11;
  filename = bytes_at vs 12;
  exec_path = bytes_at vs 13;
  cmdline = bytes_at vs 14;
  cwd = bytes_at vs 15;
  parent_comm = bytes_at vs 16;
  start_time_ticks = nat_at vs 17;
}

abbrev pub to_file : List FieldValue → FileEvent
to_file vs = record {
  hdr = to_header vs;
  kind = nat_at vs 9;
  dfd = int_at vs 10;
  flags = int_at vs 11;
  mode = int_at vs 12;
  ret = int_at vs 13;
  path_a = bytes_at vs 14;
  path_b = bytes_at vs 15;
}

abbrev pub to_syscall : List FieldValue → SyscallEvent
to_syscall vs = record {
  hdr = to_header vs;
  is_enter = nat_at vs 9;
  syscall_nr = int_at vs 10;
  arg0 = int_at vs 11;
  arg1 = int_at vs 12;
  arg2 = int_at vs 13;
  ret = int_at vs 14;
}

-- An endpoint from its place among the values on.
abbrev pub to_endpoint : List FieldValue → ℕ → NetworkEndpoint
to_endpoint vs i = record {
  family = nat_at vs i;
  port = nat_at vs (1 + i);
  addr_len = nat_at vs (2 + i);
  addr = bytes_at vs (3 + i);
  path = bytes_at vs (4 + i);
}

abbrev pub to_network : List FieldValue → NetworkEvent
to_network vs = record {
  hdr = to_header vs;
  kind = nat_at vs 9;
  fd = int_at vs 10;
  peer_fd = int_at vs 11;
  ret = int_at vs 12;
  domain = int_at vs 13;
  sock_type = int_at vs 14;
  protocol = int_at vs 15;
  flags = int_at vs 16;
  backlog = int_at vs 17;
  how = int_at vs 18;
  opt_level = int_at vs 19;
  opt_name = int_at vs 20;
  opt_len = int_at vs 21;
  optval_prefix = bytes_at vs 22;
  flow_id = nat_at vs 23;
  socket_id = nat_at vs 24;
  direction = nat_at vs 25;
  transport = nat_at vs 26;
  bytes_requested = nat_at vs 27;
  bytes_transferred = nat_at vs 28;
  bytes_captured = nat_at vs 29;
  bytes_truncated = nat_at vs 30;
  local = to_endpoint vs 31;
  remote = to_endpoint vs 36;
}
