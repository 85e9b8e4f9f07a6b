-- ===== src/Decoder/Encode.antt =====
-- The bytes of a record in memory: what the decoder reads is what the kernel wrote.
use e_trace_gen_e_bpfevent_t.Base.{ℕ, List, [], ◌∷◌, ◌++◌}
use e_trace_gen_e_bpfevent_t.Schema.{
  EventHeader, Event, ProcessEvent, FileEvent, SyscallEvent, NetworkEndpoint, NetworkEvent,
}
use e_trace_gen_e_bpfevent_t.Decoder.Layout.{
  FieldKind, FieldValue, number, integer, bytes, encode_fields, Fits,
}
use e_trace_gen_e_bpfevent_t.Decoder.Structs.{
  process_layout, file_layout, syscall_layout, network_layout,
}

abbrev pub header_values : EventHeader → List FieldValue
header_values h =
    number h.ts_ns
    ∷ number h.type
    ∷ number h.size
    ∷ number h.pid
    ∷ number h.tgid
    ∷ number h.ppid
    ∷ number h.uid
    ∷ number h.gid
    ∷ bytes h.comm
    ∷ []

abbrev pub process_values : ProcessEvent → List FieldValue
process_values ev =
    header_values ev.hdr
    ++ (number ev.kind
        ∷ number ev.exit_code
        ∷ number ev.child_pid
        ∷ bytes ev.filename
        ∷ bytes ev.exec_path
        ∷ bytes ev.cmdline
        ∷ bytes ev.cwd
        ∷ bytes ev.parent_comm
        ∷ number ev.start_time_ticks
        ∷ [])

abbrev pub file_values : FileEvent → List FieldValue
file_values ev =
    header_values ev.hdr
    ++ (number ev.kind
        ∷ integer ev.dfd
        ∷ integer ev.flags
        ∷ integer ev.mode
        ∷ integer ev.ret
        ∷ bytes ev.path_a
        ∷ bytes ev.path_b
        ∷ [])

abbrev pub syscall_values : SyscallEvent → List FieldValue
syscall_values ev =
    header_values ev.hdr
    ++ (number ev.is_enter
        ∷ integer ev.syscall_nr
        ∷ integer ev.arg0
        ∷ integer ev.arg1
        ∷ integer ev.arg2
        ∷ integer ev.ret
        ∷ [])

abbrev pub endpoint_values : NetworkEndpoint → List FieldValue
endpoint_values ep =
    number ep.family ∷ number ep.port ∷ number ep.addr_len ∷ bytes ep.addr ∷ bytes ep.path ∷ []

abbrev pub network_values : NetworkEvent → List FieldValue
network_values ev =
    header_values ev.hdr
    ++ (number ev.kind
        ∷ integer ev.fd
        ∷ integer ev.peer_fd
        ∷ integer ev.ret
        ∷ integer ev.domain
        ∷ integer ev.sock_type
        ∷ integer ev.protocol
        ∷ integer ev.flags
        ∷ integer ev.backlog
        ∷ integer ev.how
        ∷ integer ev.opt_level
        ∷ integer ev.opt_name
        ∷ integer ev.opt_len
        ∷ bytes ev.optval_prefix
        ∷ number ev.flow_id
        ∷ number ev.socket_id
        ∷ number ev.direction
        ∷ number ev.transport
        ∷ number ev.bytes_requested
        ∷ number ev.bytes_transferred
        ∷ number ev.bytes_captured
        ∷ number ev.bytes_truncated
        ∷ [])
    ++ endpoint_values ev.local
    ++ endpoint_values ev.remote

abbrev pub layout_of : Event → List FieldKind
layout_of (Event.process ev) = process_layout
layout_of (Event.file ev) = file_layout
layout_of (Event.syscall ev) = syscall_layout
layout_of (Event.network ev) = network_layout

abbrev pub values_of : Event → List FieldValue
values_of (Event.process ev) = process_values ev
values_of (Event.file ev) = file_values ev
values_of (Event.syscall ev) = syscall_values ev
values_of (Event.network ev) = network_values ev

-- The bytes of a record.
unfoldable pub encode : Event → List ℕ
encode ev = encode_fields (layout_of ev) (values_of ev)

-- Every field of a record has a value of its type, and every buffer its length.
unfoldable pub IsWire : Event → Type 0
IsWire ev = Fits (layout_of ev) (values_of ev)
