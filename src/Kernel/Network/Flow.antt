-- ===== src/Kernel/Network/Flow.antt =====
-- Transport, direction and flow id of a socket event, of bpf/event_logger_common.bpf.h.
use e_trace_gen_e_bpfevent_t.Base.{
  ℕ, ℤ, pos, negsuc, Bool, false, ◌*◌, leb, ◌==◌, ◌||◌, if◌then◌else◌, u64, shl64, shr, to_bits,
  field_at, bit_xor,
}
use e_trace_gen_e_bpfevent_t.Schema.{NetworkEvent}
use e_trace_gen_e_bpfevent_t.Schema.Kinds.{
  network_connect, network_sendto, network_sendmsg, network_write, network_writev, network_sendmmsg,
  network_accept, network_accept4, network_recvfrom, network_recvmsg, network_read, network_readv,
  network_recvmmsg, network_direction_unknown, network_direction_inbound,
  network_direction_outbound, network_transport_unknown, network_transport_tcp,
  network_transport_udp, network_transport_unix, network_transport_raw,
}
use e_trace_gen_e_bpfevent_t.Kernel.Env.{Env}
use e_trace_gen_e_bpfevent_t.Kernel.Network.Endpoint.{af_unix}

-- The kernel's `enum sock_type`.
abbrev pub sock_stream : ℕ
sock_stream = 1

abbrev pub sock_dgram : ℕ
sock_dgram = 2

abbrev pub sock_raw : ℕ
sock_raw = 3

abbrev pub equals : ℤ → ℕ → Bool
equals (pos n) m = n == m
equals (negsuc n) m = false

unfoldable pub infer_network_transport : ℤ → ℤ → ℕ
infer_network_transport domain type =
    if equals domain af_unix
    then network_transport_unix
    else if equals type sock_stream
    then network_transport_tcp
    else if equals type sock_dgram
    then network_transport_udp
    else if equals type sock_raw
    then network_transport_raw
    else network_transport_unknown

unfoldable pub infer_network_direction : ℕ → ℕ
infer_network_direction kind =
    if kind == network_connect
      || kind == network_sendto
      || kind == network_sendmsg
      || kind == network_write
      || kind == network_writev
      || kind == network_sendmmsg
    then network_direction_outbound
    else if kind == network_accept
        || kind == network_accept4
        || kind == network_recvfrom
        || kind == network_recvmsg
        || kind == network_read
        || kind == network_readv
        || kind == network_recvmmsg
    then network_direction_inbound
    else network_direction_unknown

-- `x ^= x >> 33`
unfoldable pub xor_shift : ℕ → ℕ
xor_shift x = bit_xor x (shr x 33)

unfoldable pub hash_fold64 : ℕ → ℕ
hash_fold64 x =
    xor_shift (u64 (xor_shift (u64 (xor_shift x * 0xff51_afd7_ed55_8ccd)) * 0xc4ce_b9fe_1a85_ec53))

-- The id before it is hashed, from the current task and the event.
unfoldable pub flow_seed : ℕ → NetworkEvent → ℕ
flow_seed pid_tgid ev =
    let id = bit_xor pid_tgid (shl64 ev.kind 48) in
    let id = bit_xor id (shl64 (to_bits 32 ev.fd) 32) in
    let id = bit_xor id (shl64 (to_bits 32 ev.peer_fd) 16) in
    let id = bit_xor id ev.local.port in
    let id = bit_xor id (shl64 ev.remote.port 32) in
    let id = if leb 4 ev.local.addr_len then bit_xor id (field_at 0 4 ev.local.addr) else id in
    if leb 4 ev.remote.addr_len then bit_xor id (shl64 (field_at 0 4 ev.remote.addr) 16) else id

unfoldable pub compute_network_flow_id : Env → NetworkEvent → ℕ
compute_network_flow_id env ev = hash_fold64 (flow_seed env.current_pid_tgid ev)
