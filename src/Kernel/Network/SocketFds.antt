-- ===== src/Kernel/Network/SocketFds.antt =====
-- Which descriptors count as sockets, and what an exit handler makes of them.
use e_trace_gen_e_bpfevent_t.Base.{ℕ, ℤ, ◌≡◌, true, false, is_nonneg, arith, s32, ◌∙◌}
use e_trace_gen_e_bpfevent_t.Schema.{NetworkEvent}
use e_trace_gen_e_bpfevent_t.Schema.Kinds.{network_socket, network_close}
use e_trace_gen_e_bpfevent_t.Kernel.State.{KernelState, NetworkStateValue, MapHelpers, IsMapHelpers}
use e_trace_gen_e_bpfevent_t.Kernel.Env.{Env}
use e_trace_gen_e_bpfevent_t.Kernel.Network.Pairing.{
  SocketFds, socket_key, add_socket_fd, delete_socket_fd, is_socket_fd, finish_fds, finish_remote,
  finish_bytes, finish_flow, finish_local, finish_opt_len, finish_option, finish_network_event,
  with_socket_fds,
}

-- The map takes a descriptor.
abbrev pub IsTaken : MapHelpers → Env → ℤ → SocketFds → Type 0
IsTaken h env fd fds =
    is_nonneg (h.socket_map.update_elem fds (socket_key env fd) (record { is_socket = 1 })).0 ≡ true

module _ {h : MapHelpers} (laws : IsMapHelpers h) (env : Env) (fd : ℤ) (s : KernelState) where
  -- A descriptor that is added, and that the map takes, counts as a socket.
  pub add_socket_fd-is_socket_fd :
      IsTaken h env fd s.socket_fd_state
      → is_socket_fd env fd (with_socket_fds (add_socket_fd h env fd s.socket_fd_state) s) ≡ true
  unfolding is_socket_fd add_socket_fd
  add_socket_fd-is_socket_fd taken = ground (
    arith,
    laws.socket_laws.update_stores s.socket_fd_state (socket_key env fd) (record { is_socket = 1 })
        taken,
  )

  pub delete_socket_fd-is_socket_fd :
      is_socket_fd env fd (with_socket_fds (delete_socket_fd h env fd s.socket_fd_state) s) ≡ false
  unfolding is_socket_fd delete_socket_fd
  delete_socket_fd-is_socket_fd =
      ground (arith, laws.socket_laws.delete_removes s.socket_fd_state (socket_key env fd))

-- The steps after `finish_fds` change no descriptor.
module _ (env : Env) (kind : ℕ) (ret_code : ℤ) (state : NetworkStateValue)
    (out : NetworkEvent) where
  remote_fds : (finish_remote env kind ret_code state out).fd ≡ out.fd
  unfolding finish_remote
  remote_fds = ground arith

  bytes_fds : (finish_bytes env kind ret_code state out).fd ≡ out.fd
  unfolding finish_bytes
  bytes_fds = ground arith

  flow_fds : (finish_flow env kind ret_code state out).fd ≡ out.fd
  unfolding finish_flow
  flow_fds = ground arith

  local_fds : (finish_local env kind ret_code state out).fd ≡ out.fd
  unfolding finish_local
  local_fds = ground arith

  option_fds : (finish_option env kind ret_code state out).fd ≡ out.fd
  unfolding finish_option finish_opt_len
  option_fds = ground arith

-- The descriptor of a finished `socket` record is the call's result.
pub finished_socket_fd :
    (env : Env) (ret_code : ℤ) (state : NetworkStateValue)
    → is_nonneg ret_code ≡ true
    → (finish_network_event env network_socket ret_code state).fd ≡ s32 ret_code
unfolding finish_network_event finish_fds
finished_socket_fd env ret_code state ok =
    option_fds env network_socket ret_code state _
    ∙ local_fds env network_socket ret_code state _
    ∙ flow_fds env network_socket ret_code state _
    ∙ bytes_fds env network_socket ret_code state _
    ∙ remote_fds env network_socket ret_code state _
    ∙ ground arith

-- The descriptor of a finished `close` record is the saved one.
pub finished_close_fd :
    (env : Env) (ret_code : ℤ) (state : NetworkStateValue)
    → (finish_network_event env network_close ret_code state).fd ≡ state.ev.fd
unfolding finish_network_event finish_fds
finished_close_fd env ret_code state =
    option_fds env network_close ret_code state _
    ∙ local_fds env network_close ret_code state _
    ∙ flow_fds env network_close ret_code state _
    ∙ bytes_fds env network_close ret_code state _
    ∙ remote_fds env network_close ret_code state _
    ∙ ground arith
