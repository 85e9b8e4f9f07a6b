-- ===== src/Kernel/Network/Enter.antt =====
-- The enter handlers of bpf/event_logger_network.bpf.c. Each takes a record, builds a state in the
-- zeroed scratch slot and saves it under the task and the kind; the record itself is discarded.
use e_trace_gen_e_bpfevent_t.Base.{ℕ, ℤ, none, some, not, ◌||◌, if◌then◌else◌}
use e_trace_gen_e_bpfevent_t.Schema.{NetworkEvent}
use e_trace_gen_e_bpfevent_t.Schema.Kinds.{
  network_socket, network_connect, network_accept, network_bind, network_listen, network_close,
  network_sendto, network_recvfrom, network_shutdown, network_socketpair, network_accept4,
  network_getsockname, network_getpeername, network_setsockopt, network_getsockopt, network_sendmsg,
  network_recvmsg, network_read, network_write, network_readv, network_writev, network_sendmmsg,
  network_recvmmsg,
}
use e_trace_gen_e_bpfevent_t.Kernel.State.{KernelState, NetworkStateValue, MapHelpers}
use e_trace_gen_e_bpfevent_t.Kernel.Env.{Env, SysEnter}
use e_trace_gen_e_bpfevent_t.Kernel.Gate.{is_event_allowed, is_network_probe_enabled}
use e_trace_gen_e_bpfevent_t.Kernel.Reserve.{reserve_network_event}
use e_trace_gen_e_bpfevent_t.Kernel.Network.Pairing.{is_socket_fd, save_network_enter_state}
use e_trace_gen_e_bpfevent_t.Kernel.Network.Build.{
  arg_s32, build_socket, build_socketpair, build_connect, build_bind, build_accept, build_accept4,
  build_listen, build_getsockname, build_getpeername, build_setsockopt, build_getsockopt,
  build_sendto, build_sendmsg, build_recvfrom, build_recvmsg, build_read, build_write, build_readv,
  build_writev, build_sendmmsg, build_recvmmsg, build_shutdown, build_close,
}

-- The frame of the handlers behind their gates: a reservation, the scratch slot, the handler's own
-- state and its save.
unfoldable pub network_save :
    MapHelpers → Env → ℕ → (NetworkEvent → NetworkStateValue) → KernelState → KernelState
network_save h env kind build s =
    let (slot, s') = reserve_network_event env kind s in
    elim slot [
      | none ↦ s'
      | some ev ↦
          if env.scratch_available
          then (save_network_enter_state h env kind (build ev) s').1
          else s'
    ]

unfoldable pub network_enter :
    MapHelpers → Env → ℕ → (NetworkEvent → NetworkStateValue) → KernelState → KernelState
network_enter h env kind build s =
    if not (is_event_allowed env s) || not (is_network_probe_enabled s kind)
    then s
    else network_save h env kind build s

-- `read`, `write` and `close` come for every descriptor: only those of sockets are recorded.
unfoldable pub socket_enter :
    MapHelpers → Env → ℕ → ℤ → (NetworkEvent → NetworkStateValue) → KernelState → KernelState
socket_enter h env kind fd build s =
    if not (is_event_allowed env s) || not (is_network_probe_enabled s kind)
    then s
    else if not (is_socket_fd env fd s)
    then s
    else network_save h env kind build s

module _ (h : MapHelpers) (env : Env) (ctx : SysEnter) where
  unfoldable pub on_sys_enter_socket : KernelState → KernelState
  on_sys_enter_socket = network_enter h env network_socket (build_socket env ctx)

  unfoldable pub on_sys_enter_socketpair : KernelState → KernelState
  on_sys_enter_socketpair = network_enter h env network_socketpair (build_socketpair env ctx)

  unfoldable pub on_sys_enter_connect : KernelState → KernelState
  on_sys_enter_connect = network_enter h env network_connect (build_connect env ctx)

  unfoldable pub on_sys_enter_bind : KernelState → KernelState
  on_sys_enter_bind = network_enter h env network_bind (build_bind env ctx)

  unfoldable pub on_sys_enter_accept : KernelState → KernelState
  on_sys_enter_accept = network_enter h env network_accept (build_accept env ctx)

  unfoldable pub on_sys_enter_accept4 : KernelState → KernelState
  on_sys_enter_accept4 = network_enter h env network_accept4 (build_accept4 env ctx)

  unfoldable pub on_sys_enter_listen : KernelState → KernelState
  on_sys_enter_listen = network_enter h env network_listen (build_listen env ctx)

  unfoldable pub on_sys_enter_getsockname : KernelState → KernelState
  on_sys_enter_getsockname = network_enter h env network_getsockname (build_getsockname env ctx)

  unfoldable pub on_sys_enter_getpeername : KernelState → KernelState
  on_sys_enter_getpeername = network_enter h env network_getpeername (build_getpeername env ctx)

  unfoldable pub on_sys_enter_setsockopt : KernelState → KernelState
  on_sys_enter_setsockopt = network_enter h env network_setsockopt (build_setsockopt env ctx)

  unfoldable pub on_sys_enter_getsockopt : KernelState → KernelState
  on_sys_enter_getsockopt = network_enter h env network_getsockopt (build_getsockopt env ctx)

  unfoldable pub on_sys_enter_sendto : KernelState → KernelState
  on_sys_enter_sendto = network_enter h env network_sendto (build_sendto env ctx)

  unfoldable pub on_sys_enter_sendmsg : KernelState → KernelState
  on_sys_enter_sendmsg = network_enter h env network_sendmsg (build_sendmsg env ctx)

  unfoldable pub on_sys_enter_recvfrom : KernelState → KernelState
  on_sys_enter_recvfrom = network_enter h env network_recvfrom (build_recvfrom env ctx)

  unfoldable pub on_sys_enter_recvmsg : KernelState → KernelState
  on_sys_enter_recvmsg = network_enter h env network_recvmsg (build_recvmsg env ctx)

  unfoldable pub on_sys_enter_read : KernelState → KernelState
  on_sys_enter_read = socket_enter h env network_read (arg_s32 ctx.args0) (build_read env ctx)

  unfoldable pub on_sys_enter_write : KernelState → KernelState
  on_sys_enter_write = socket_enter h env network_write (arg_s32 ctx.args0) (build_write env ctx)

  unfoldable pub on_sys_enter_readv : KernelState → KernelState
  on_sys_enter_readv = socket_enter h env network_readv (arg_s32 ctx.args0) (build_readv env ctx)

  unfoldable pub on_sys_enter_writev : KernelState → KernelState
  on_sys_enter_writev = socket_enter h env network_writev (arg_s32 ctx.args0) (build_writev env ctx)

  unfoldable pub on_sys_enter_sendmmsg : KernelState → KernelState
  on_sys_enter_sendmmsg =
      socket_enter h env network_sendmmsg (arg_s32 ctx.args0) (build_sendmmsg env ctx)

  unfoldable pub on_sys_enter_recvmmsg : KernelState → KernelState
  on_sys_enter_recvmmsg =
      socket_enter h env network_recvmmsg (arg_s32 ctx.args0) (build_recvmmsg env ctx)

  unfoldable pub on_sys_enter_shutdown : KernelState → KernelState
  on_sys_enter_shutdown = network_enter h env network_shutdown (build_shutdown env ctx)

  unfoldable pub on_sys_enter_close : KernelState → KernelState
  on_sys_enter_close = socket_enter h env network_close (arg_s32 ctx.args0) (build_close env ctx)
