-- ===== src/Sink/Line.antt =====
-- src/sinks/json_sink.cpp: `WriteEventBody`, and the line of an event.
use e_trace_gen_e_bpfevent_t.Base.{ℕ, not, ◌==◌, if◌then◌else◌, List, [], ◌∷◌, ◌++◌, Option, c_str}
use e_trace_gen_e_bpfevent_t.Schema.{
  Event, ProcessEvent, FileEvent, SyscallEvent, NetworkEvent, header,
}
use e_trace_gen_e_bpfevent_t.Model.Canonical.{CanonicalEvent}
use e_trace_gen_e_bpfevent_t.Registry.Entity.{ProcessEntity}
use e_trace_gen_e_bpfevent_t.Sink.Labels.{
  network_event_kind_names, network_direction_names, network_transport_names,
}
use e_trace_gen_e_bpfevent_t.Sink.Body.{
  Piece, literal, number, integer, escaped, named, text_of, text_from, ticks_from, write_header,
  write_process_info, write_network_endpoint,
}

-- The rest of the body, for each payload.
abbrev pub process_fields : ProcessEvent → Option ProcessEntity → List Piece
process_fields ev pe =
    literal ",\"kind\":"
    ∷ number ev.kind
    ∷ literal ",\"exit_code\":"
    ∷ number ev.exit_code
    ∷ literal ",\"child_pid\":"
    ∷ number ev.child_pid
    ∷ literal ",\"filename\":\""
    ∷ escaped (text_from (λ e. e.exec_path) pe)
    ∷ literal "\",\"exec_path\":\""
    ∷ escaped (text_from (λ e. e.exec_path) pe)
    ∷ literal "\",\"cmdline\":\""
    ∷ escaped (text_from (λ e. e.cmdline) pe)
    ∷ literal "\",\"cwd\":\""
    ∷ escaped (text_from (λ e. e.cwd) pe)
    ∷ literal "\",\"parent_comm\":\""
    ∷ escaped (text_from (λ e. e.parent_comm) pe)
    ∷ literal "\",\"start_time_ticks\":"
    ∷ number (ticks_from pe)
    ∷ []

abbrev pub file_fields : FileEvent → List Piece
file_fields ev =
    literal ",\"kind\":"
    ∷ number ev.kind
    ∷ literal ",\"ret\":"
    ∷ integer ev.ret
    ∷ literal ",\"path_a\":\""
    ∷ escaped (c_str ev.path_a)
    ∷ literal "\",\"path_b\":\""
    ∷ escaped (c_str ev.path_b)
    ∷ literal "\""
    ∷ []

abbrev pub syscall_fields : SyscallEvent → List Piece
syscall_fields ev =
    literal ",\"is_enter\":"
    ∷ number ev.is_enter
    ∷ literal ",\"syscall_nr\":"
    ∷ integer ev.syscall_nr
    ∷ literal ",\"ret\":"
    ∷ integer ev.ret
    ∷ []

abbrev pub network_fields : NetworkEvent → List Piece
network_fields ev =
    literal ",\"event_name\":\""
    ∷ named network_event_kind_names ev.kind
    ∷ literal "\",\"kind\":"
    ∷ number ev.kind
    ∷ literal ",\"fd\":"
    ∷ integer ev.fd
    ∷ literal ",\"peer_fd\":"
    ∷ integer ev.peer_fd
    ∷ literal ",\"ret\":"
    ∷ integer ev.ret
    ∷ literal ",\"domain\":"
    ∷ integer ev.domain
    ∷ literal ",\"sock_type\":"
    ∷ integer ev.sock_type
    ∷ literal ",\"protocol\":"
    ∷ integer ev.protocol
    ∷ literal ",\"flags\":"
    ∷ integer ev.flags
    ∷ literal ",\"backlog\":"
    ∷ integer ev.backlog
    ∷ literal ",\"how\":"
    ∷ integer ev.how
    ∷ literal ",\"opt_level\":"
    ∷ integer ev.opt_level
    ∷ literal ",\"opt_name\":"
    ∷ integer ev.opt_name
    ∷ literal ",\"opt_len\":"
    ∷ integer ev.opt_len
    ∷ literal ",\"optval_prefix\":\""
    ∷ escaped ev.optval_prefix
    ∷ literal "\",\"flow_id\":"
    ∷ number ev.flow_id
    ∷ literal ",\"socket_id\":"
    ∷ number ev.socket_id
    ∷ literal ",\"direction\":\""
    ∷ named network_direction_names ev.direction
    ∷ literal "\",\"transport\":\""
    ∷ named network_transport_names ev.transport
    ∷ literal "\",\"bytes_requested\":"
    ∷ number ev.bytes_requested
    ∷ literal ",\"bytes_transferred\":"
    ∷ number ev.bytes_transferred
    ∷ literal ",\"bytes_captured\":"
    ∷ number ev.bytes_captured
    ∷ literal ",\"bytes_truncated\":"
    ∷ number ev.bytes_truncated
    ∷ []

abbrev pub event_fields : Event → Option ProcessEntity → List Piece
event_fields (Event.process ev) pe = process_fields ev pe
event_fields (Event.file ev) pe = file_fields ev
event_fields (Event.syscall ev) pe = syscall_fields ev
event_fields (Event.network ev) pe =
    network_fields ev
    ++ write_network_endpoint "local" ev.local
    ++ write_network_endpoint "remote" ev.remote

-- The ids that the registry gave; an object without one has no field.
abbrev pub identity : ℕ → ℕ → List Piece
identity subject_id object_id =
    literal ",\"entity_id\":"
    ∷ number subject_id
    ∷ (if not (object_id == 0)
        then literal ",\"object_entity_id\":" ∷ number object_id ∷ []
        else [])

-- `WriteEventBody`, given the entity of the event's subject.
abbrev pub write_event_body : CanonicalEvent → Option ProcessEntity → List Piece
write_event_body event pe =
    write_header (header event.raw)
    ++ write_process_info (header event.raw) pe
    ++ identity event.subject.id event.object_ref.id
    ++ event_fields event.raw pe

-- The line that `Write` puts together.
unfoldable pub serialize : CanonicalEvent → Option ProcessEntity → List ℕ
unfolding text_of
serialize event pe = text_of (literal "{" ∷ write_event_body event pe ++ (literal "}\n" ∷ []))
