-- ===== src/Kernel/Network/Exit.antt =====
-- The exit handlers of bpf/event_logger_network.bpf.c: the gates, then the finished record.
use e_trace_gen_e_bpfevent_t.Base.{ℕ, not, ◌||◌, if◌then◌else◌}
use e_trace_gen_e_bpfevent_t.Schema.Kinds.{
  network_socket, network_connect, network_accept, network_bind, network_listen, network_close,
  network_sendto, network_recvfrom, network_shutdown, network_socketpair, network_accept4,
  network_getsockname, network_getpeername, network_setsockopt, network_getsockopt, network_sendmsg,
  network_recvmsg, network_read, network_write, network_readv, network_writev, network_sendmmsg,
  network_recvmmsg,
}
use e_trace_gen_e_bpfevent_t.Kernel.State.{KernelState, MapHelpers}
use e_trace_gen_e_bpfevent_t.Kernel.Env.{Env, SysExit}
use e_trace_gen_e_bpfevent_t.Kernel.Gate.{is_event_allowed, is_network_probe_enabled}
use e_trace_gen_e_bpfevent_t.Kernel.Network.Pairing.{emit_network_exit_event}

unfoldable pub network_exit : MapHelpers → Env → ℕ → SysExit → KernelState → KernelState
network_exit h env kind ctx s =
    if not (is_event_allowed env s) || not (is_network_probe_enabled s kind)
    then s
    else emit_network_exit_event h env kind ctx.ret s

module _ (h : MapHelpers) (env : Env) where
  unfoldable pub on_sys_exit_socket : SysExit → KernelState → KernelState
  on_sys_exit_socket = network_exit h env network_socket

  unfoldable pub on_sys_exit_socketpair : SysExit → KernelState → KernelState
  on_sys_exit_socketpair = network_exit h env network_socketpair

  unfoldable pub on_sys_exit_connect : SysExit → KernelState → KernelState
  on_sys_exit_connect = network_exit h env network_connect

  unfoldable pub on_sys_exit_bind : SysExit → KernelState → KernelState
  on_sys_exit_bind = network_exit h env network_bind

  unfoldable pub on_sys_exit_accept : SysExit → KernelState → KernelState
  on_sys_exit_accept = network_exit h env network_accept

  unfoldable pub on_sys_exit_accept4 : SysExit → KernelState → KernelState
  on_sys_exit_accept4 = network_exit h env network_accept4

  unfoldable pub on_sys_exit_listen : SysExit → KernelState → KernelState
  on_sys_exit_listen = network_exit h env network_listen

  unfoldable pub on_sys_exit_getsockname : SysExit → KernelState → KernelState
  on_sys_exit_getsockname = network_exit h env network_getsockname

  unfoldable pub on_sys_exit_getpeername : SysExit → KernelState → KernelState
  on_sys_exit_getpeername = network_exit h env network_getpeername

  unfoldable pub on_sys_exit_setsockopt : SysExit → KernelState → KernelState
  on_sys_exit_setsockopt = network_exit h env network_setsockopt

  unfoldable pub on_sys_exit_getsockopt : SysExit → KernelState → KernelState
  on_sys_exit_getsockopt = network_exit h env network_getsockopt

  unfoldable pub on_sys_exit_sendto : SysExit → KernelState → KernelState
  on_sys_exit_sendto = network_exit h env network_sendto

  unfoldable pub on_sys_exit_sendmsg : SysExit → KernelState → KernelState
  on_sys_exit_sendmsg = network_exit h env network_sendmsg

  unfoldable pub on_sys_exit_recvfrom : SysExit → KernelState → KernelState
  on_sys_exit_recvfrom = network_exit h env network_recvfrom

  unfoldable pub on_sys_exit_recvmsg : SysExit → KernelState → KernelState
  on_sys_exit_recvmsg = network_exit h env network_recvmsg

  unfoldable pub on_sys_exit_read : SysExit → KernelState → KernelState
  on_sys_exit_read = network_exit h env network_read

  unfoldable pub on_sys_exit_write : SysExit → KernelState → KernelState
  on_sys_exit_write = network_exit h env network_write

  unfoldable pub on_sys_exit_readv : SysExit → KernelState → KernelState
  on_sys_exit_readv = network_exit h env network_readv

  unfoldable pub on_sys_exit_writev : SysExit → KernelState → KernelState
  on_sys_exit_writev = network_exit h env network_writev

  unfoldable pub on_sys_exit_sendmmsg : SysExit → KernelState → KernelState
  on_sys_exit_sendmmsg = network_exit h env network_sendmmsg

  unfoldable pub on_sys_exit_recvmmsg : SysExit → KernelState → KernelState
  on_sys_exit_recvmmsg = network_exit h env network_recvmmsg

  unfoldable pub on_sys_exit_shutdown : SysExit → KernelState → KernelState
  on_sys_exit_shutdown = network_exit h env network_shutdown

  unfoldable pub on_sys_exit_close : SysExit → KernelState → KernelState
  on_sys_exit_close = network_exit h env network_close
