-- ===== src/Sink/Labels.antt =====
-- src/sinks/json_sink.cpp: the names of numbers. A `switch` is the list of its cases.
use Prim.Native.String.{String}
use e_trace_gen_e_bpfevent_t.Base.{ℕ, ◌==◌, if◌then◌else◌, List, [], ◌∷◌}
use e_trace_gen_e_bpfevent_t.Schema.Kinds.{
  event_type_process, event_type_file, event_type_syscall, event_type_network, network_socket,
  network_connect, network_accept, network_bind, network_listen, network_close, network_sendto,
  network_recvfrom, network_shutdown, network_socketpair, network_accept4, network_getsockname,
  network_getpeername, network_setsockopt, network_getsockopt, network_sendmsg, network_recvmsg,
  network_read, network_write, network_readv, network_writev, network_sendmmsg, network_recvmmsg,
  network_direction_inbound, network_direction_outbound, network_transport_tcp,
  network_transport_udp, network_transport_unix, network_transport_raw,
}

-- The name of the first case that is the number, or the default.
unfoldable pub label : List (ℕ × String) → ℕ → String
label [] n = "unknown"
label ((k, name) ∷ cases) n = if n == k then name else label cases n

-- `EventTypeToString`
abbrev pub event_type_names : List (ℕ × String)
event_type_names =
    (event_type_process, "process")
    ∷ (event_type_file, "file")
    ∷ (event_type_syscall, "syscall")
    ∷ (event_type_network, "network")
    ∷ []

-- `NetworkEventKindToString`
abbrev pub network_event_kind_names : List (ℕ × String)
network_event_kind_names =
    (network_socket, "socket")
    ∷ (network_connect, "connect")
    ∷ (network_accept, "accept")
    ∷ (network_bind, "bind")
    ∷ (network_listen, "listen")
    ∷ (network_close, "close")
    ∷ (network_sendto, "sendto")
    ∷ (network_recvfrom, "recvfrom")
    ∷ (network_shutdown, "shutdown")
    ∷ (network_socketpair, "socketpair")
    ∷ (network_accept4, "accept4")
    ∷ (network_getsockname, "getsockname")
    ∷ (network_getpeername, "getpeername")
    ∷ (network_setsockopt, "setsockopt")
    ∷ (network_getsockopt, "getsockopt")
    ∷ (network_sendmsg, "sendmsg")
    ∷ (network_recvmsg, "recvmsg")
    ∷ (network_read, "read")
    ∷ (network_write, "write")
    ∷ (network_readv, "readv")
    ∷ (network_writev, "writev")
    ∷ (network_sendmmsg, "sendmmsg")
    ∷ (network_recvmmsg, "recvmmsg")
    ∷ []

-- `NetworkDirectionToString`
abbrev pub network_direction_names : List (ℕ × String)
network_direction_names =
    (network_direction_inbound, "inbound") ∷ (network_direction_outbound, "outbound") ∷ []

-- `NetworkTransportToString`
abbrev pub network_transport_names : List (ℕ × String)
network_transport_names =
    (network_transport_tcp, "tcp")
    ∷ (network_transport_udp, "udp")
    ∷ (network_transport_unix, "unix")
    ∷ (network_transport_raw, "raw")
    ∷ []
