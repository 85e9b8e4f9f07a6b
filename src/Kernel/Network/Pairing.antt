-- ===== src/Kernel/Network/Pairing.antt =====
-- Socket descriptors, and the pairing of network enters and exits, of
-- bpf/event_logger_common.bpf.h.
use e_trace_gen_e_bpfevent_t.Base.{
  Contents, ℕ, ℤ, negsuc, Bool, false, none, some, not, ◌&&◌, ◌||◌, ◌==◌, if◌then◌else◌, u32,
  signed32, s32, to_bits, is_nonneg, is_positive, field_at,
}
use e_trace_gen_e_bpfevent_t.Schema.{Event, NetworkEvent}
use e_trace_gen_e_bpfevent_t.Schema.Kinds.{
  network_socket, network_accept, network_close, network_sendto, network_recvfrom,
  network_socketpair, network_accept4, network_getsockname, network_getpeername, network_getsockopt,
  network_sendmsg, network_recvmsg, network_read, network_write, network_readv, network_writev,
  network_sendmmsg, network_recvmmsg,
}
use e_trace_gen_e_bpfevent_t.Kernel.State.{
  SocketFdValue, KernelState, NetworkStateKey, NetworkStateValue, SocketFdKey, MapHelpers, stat_inc,
  stat_network_state_collision, stat_network_state_save_fail, stat_network_state_miss,
}
use e_trace_gen_e_bpfevent_t.Kernel.Env.{Env}
use e_trace_gen_e_bpfevent_t.Kernel.Gate.{is_network_port_allowed, tgid_of}
use e_trace_gen_e_bpfevent_t.Kernel.Reserve.{reserve_network_event}
use e_trace_gen_e_bpfevent_t.Kernel.Process.{submit}
use e_trace_gen_e_bpfevent_t.Kernel.Network.Endpoint.{
  is_zero, parse_sockaddr_user, copy_optval_prefix,
}
use e_trace_gen_e_bpfevent_t.Kernel.Network.Iovec.{sum_mmsghdr_transfers}
use e_trace_gen_e_bpfevent_t.Kernel.Network.Flow.{compute_network_flow_id}

unfoldable pub make_network_key : Env → ℕ → NetworkStateKey
make_network_key env kind = record { pid_tgid = env.current_pid_tgid; kind = kind }

abbrev pub socket_key : Env → ℤ → SocketFdKey
socket_key env fd = record { tgid = tgid_of env.current_pid_tgid; fd = to_bits 32 fd }

-- What is in `socket_fd_state`; the results of the helpers are ignored.
abbrev pub SocketFds : Type 0
SocketFds = Contents SocketFdKey SocketFdValue

unfoldable pub add_socket_fd : MapHelpers → Env → ℤ → SocketFds → SocketFds
add_socket_fd h env fd fds =
    (h.socket_map.update_elem fds (socket_key env fd) (record { is_socket = 1 })).1

unfoldable pub delete_socket_fd : MapHelpers → Env → ℤ → SocketFds → SocketFds
delete_socket_fd h env fd fds = (h.socket_map.delete_elem fds (socket_key env fd)).1

unfoldable pub is_socket_fd : Env → ℤ → KernelState → Bool
is_socket_fd env fd s = elim (s.socket_fd_state (socket_key env fd)) [
  | none ↦ false
  | some value ↦ value.is_socket == 1
]

unfoldable pub save_network_enter_state :
    MapHelpers → Env → ℕ → NetworkStateValue → KernelState → ℤ × KernelState
unfolding make_network_key
save_network_enter_state h env kind state s =
    elim (s.network_enter_state (make_network_key env kind)) [
      | some existing ↦ (negsuc 0, stat_inc env.cpu stat_network_state_collision s)
      | none ↦
          let (ret, entries) =
            h.network_map.update_elem s.network_enter_state (make_network_key env kind) state in
          let s' = record s { network_enter_state = entries } in
          (ret, if is_nonneg ret then s' else stat_inc env.cpu stat_network_state_save_fail s')
    ]

abbrev pub delete_network_entry : MapHelpers → Env → ℕ → KernelState → KernelState
delete_network_entry h env kind s = record s {
  network_enter_state =
      (h.network_map.delete_elem s.network_enter_state (make_network_key env kind)).1;
}

-- The steps of `emit_network_exit_event` between the copy of the stored record and its submission,
-- in the code's order. `ok` stands for `ret_code >= 0`.
module _ (env : Env) (kind : ℕ) (ret_code : ℤ) (state : NetworkStateValue) where
  -- The descriptors that a call created.
  unfoldable pub finish_fds : NetworkEvent → NetworkEvent
  finish_fds out =
      let (ret, bytes) = env.probe_read_user state.peer_fd_ptr 8 in
      if not (is_nonneg ret_code)
      then out
      else if kind == network_socket
      then record out { fd = s32 ret_code }
      else if kind == network_socketpair
      then (if not (state.peer_fd_ptr == 0) && is_zero ret
          then record out {
            fd = signed32 (field_at 0 4 bytes);
            peer_fd = signed32 (field_at 4 4 bytes);
          }
          else out)
      else if kind == network_accept || kind == network_accept4
      then record out { peer_fd = s32 ret_code }
      else out

  -- `socket_fd_state` after those steps; `out` is the record that they give.
  unfoldable pub track_fds : MapHelpers → NetworkEvent → SocketFds → SocketFds
  track_fds h out fds =
      if not (is_nonneg ret_code)
      then fds
      else if kind == network_socket
      then add_socket_fd h env out.fd fds
      else if kind == network_socketpair
      then (if not (state.peer_fd_ptr == 0) && is_zero (env.probe_read_user state.peer_fd_ptr 8).0
          then add_socket_fd h env out.peer_fd (add_socket_fd h env out.fd fds)
          else fds)
      else if kind == network_accept || kind == network_accept4
      then add_socket_fd h env out.peer_fd fds
      else if kind == network_close
      then delete_socket_fd h env out.fd fds
      else fds

  -- The length behind `sockaddr_len_ptr`: what the read left in `len`, which starts as 0.
  unfoldable pub sockaddr_len_read : ℕ
  sockaddr_len_read =
      if state.sockaddr_len_ptr == 0
      then 0
      else field_at 0 4 (env.probe_read_user state.sockaddr_len_ptr 4).1

  unfoldable pub finish_remote : NetworkEvent → NetworkEvent
  finish_remote out =
      if (kind == network_accept
          || kind == network_accept4
          || kind == network_recvfrom
          || kind == network_getpeername)
        && is_nonneg ret_code
        && not (state.sockaddr_ptr == 0)
      then record out {
        remote = parse_sockaddr_user env state.sockaddr_ptr sockaddr_len_read out.remote;
      }
      else out

  unfoldable pub finish_bytes : NetworkEvent → NetworkEvent
  finish_bytes out =
      if (kind == network_sendto
          || kind == network_recvfrom
          || kind == network_sendmsg
          || kind == network_recvmsg
          || kind == network_read
          || kind == network_write
          || kind == network_readv
          || kind == network_writev)
        && is_nonneg ret_code
      then record out { bytes_transferred = to_bits 64 ret_code }
      else if (kind == network_sendmmsg || kind == network_recvmmsg)
          && is_nonneg ret_code
          && not (state.mmsg_ptr == 0)
          && not (state.mmsg_count == 0)
      then record out {
        bytes_transferred = sum_mmsghdr_transfers env state.mmsg_ptr (u32 state.mmsg_count);
      }
      else out

  unfoldable pub finish_flow : NetworkEvent → NetworkEvent
  finish_flow out =
      if out.flow_id == 0 then record out { flow_id = compute_network_flow_id env out } else out

  unfoldable pub finish_local : NetworkEvent → NetworkEvent
  finish_local out =
      if kind == network_getsockname && is_nonneg ret_code && not (state.sockaddr_ptr == 0)
      then record out {
        local = parse_sockaddr_user env state.sockaddr_ptr sockaddr_len_read out.local;
      }
      else out

  unfoldable pub finish_opt_len : NetworkEvent → NetworkEvent
  finish_opt_len out =
      let (ret, bytes) = env.probe_read_user state.optlen_ptr 4 in
      if not (state.optlen_ptr == 0) && is_zero ret
      then record out { opt_len = signed32 (field_at 0 4 bytes) }
      else out

  unfoldable pub finish_option : NetworkEvent → NetworkEvent
  finish_option out =
      let out' = finish_opt_len out in
      if not (kind == network_getsockopt && is_nonneg ret_code)
      then out
      else if not (state.optval_ptr == 0) && is_positive out'.opt_len
      then record out' {
        optval_prefix =
            copy_optval_prefix env out'.optval_prefix state.optval_ptr (to_bits 32 out'.opt_len);
      }
      else out'

  -- The record at its submission.
  unfoldable pub finish_network_event : NetworkEvent
  finish_network_event = finish_option (
      finish_local (
        finish_flow (
          finish_bytes (
            finish_remote (
              finish_fds (record (state.ev) {
                hdr = record (state.ev.hdr) { ts_ns = env.ktime_at_exit };
                ret = s32 ret_code;
              }))))))

abbrev pub with_socket_fds : SocketFds → KernelState → KernelState
with_socket_fds fds s = record s { socket_fd_state = fds }

-- `emit_network_exit_event`. It always returns 0, so only the state is given. What is tracked is
-- the descriptors of `finish_fds`, which no later step changes.
unfoldable pub emit_network_exit_event : MapHelpers → Env → ℕ → ℤ → KernelState → KernelState
emit_network_exit_event h env kind ret_code s =
    elim (s.network_enter_state (make_network_key env kind)) [
      | none ↦ stat_inc env.cpu stat_network_state_miss s
      | some state ↦
          let (slot, s') = reserve_network_event env kind s in
          elim slot [
            | none ↦ delete_network_entry h env kind s'
            | some _ ↦
                let out = finish_network_event env kind ret_code state in
                let s'' =
                  with_socket_fds (track_fds env kind ret_code state h out s'.socket_fd_state) s' in
                if not (is_network_port_allowed out.local.port out.remote.port)
                then delete_network_entry h env kind s''
                else delete_network_entry h env kind (submit (Event.network out) s'')
          ]
    ]
