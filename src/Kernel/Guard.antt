-- ===== src/Kernel/Guard.antt =====
-- Which probe switch guards which program, as a table beside the handlers of bpf/.
use e_trace_gen_e_bpfevent_t.Base.{Bool}
use e_trace_gen_e_bpfevent_t.Schema.Kinds.{
  process_exec, process_fork, process_exit, process_clone, process_clone3, process_vfork,
  file_openat, file_unlinkat, file_renameat2, network_socket, network_socketpair, network_connect,
  network_bind, network_accept, network_accept4, network_listen, network_getsockname,
  network_getpeername, network_setsockopt, network_getsockopt, network_sendto, network_sendmsg,
  network_recvfrom, network_recvmsg, network_read, network_write, network_readv, network_writev,
  network_sendmmsg, network_recvmmsg, network_shutdown, network_close,
}
use e_trace_gen_e_bpfevent_t.Kernel.State.{KernelState}
use e_trace_gen_e_bpfevent_t.Kernel.Gate.{
  is_process_probe_enabled, is_file_probe_enabled, is_syscall_probe_enabled,
  is_network_probe_enabled,
}
use e_trace_gen_e_bpfevent_t.Kernel.Call.{Tracepoint}

-- Which switch guards which program.
abbrev pub is_guarded : Tracepoint → KernelState → Bool
is_guarded (Tracepoint.sched_exec _) s = is_process_probe_enabled s process_exec
is_guarded (Tracepoint.sched_fork _) s = is_process_probe_enabled s process_fork
is_guarded Tracepoint.sched_exit s = is_process_probe_enabled s process_exit
is_guarded (Tracepoint.exit_clone _) s = is_process_probe_enabled s process_clone
is_guarded (Tracepoint.exit_clone3 _) s = is_process_probe_enabled s process_clone3
is_guarded (Tracepoint.exit_vfork _) s = is_process_probe_enabled s process_vfork
is_guarded (Tracepoint.enter_openat _) s = is_file_probe_enabled s file_openat
is_guarded (Tracepoint.exit_openat _) s = is_file_probe_enabled s file_openat
is_guarded (Tracepoint.enter_unlinkat _) s = is_file_probe_enabled s file_unlinkat
is_guarded (Tracepoint.exit_unlinkat _) s = is_file_probe_enabled s file_unlinkat
is_guarded (Tracepoint.enter_renameat2 _) s = is_file_probe_enabled s file_renameat2
is_guarded (Tracepoint.exit_renameat2 _) s = is_file_probe_enabled s file_renameat2
is_guarded (Tracepoint.raw_enter _) s = is_syscall_probe_enabled s
is_guarded (Tracepoint.raw_exit _) s = is_syscall_probe_enabled s
is_guarded (Tracepoint.enter_socket _) s = is_network_probe_enabled s network_socket
is_guarded (Tracepoint.exit_socket _) s = is_network_probe_enabled s network_socket
is_guarded (Tracepoint.enter_socketpair _) s = is_network_probe_enabled s network_socketpair
is_guarded (Tracepoint.exit_socketpair _) s = is_network_probe_enabled s network_socketpair
is_guarded (Tracepoint.enter_connect _) s = is_network_probe_enabled s network_connect
is_guarded (Tracepoint.exit_connect _) s = is_network_probe_enabled s network_connect
is_guarded (Tracepoint.enter_bind _) s = is_network_probe_enabled s network_bind
is_guarded (Tracepoint.exit_bind _) s = is_network_probe_enabled s network_bind
is_guarded (Tracepoint.enter_accept _) s = is_network_probe_enabled s network_accept
is_guarded (Tracepoint.exit_accept _) s = is_network_probe_enabled s network_accept
is_guarded (Tracepoint.enter_accept4 _) s = is_network_probe_enabled s network_accept4
is_guarded (Tracepoint.exit_accept4 _) s = is_network_probe_enabled s network_accept4
is_guarded (Tracepoint.enter_listen _) s = is_network_probe_enabled s network_listen
is_guarded (Tracepoint.exit_listen _) s = is_network_probe_enabled s network_listen
is_guarded (Tracepoint.enter_getsockname _) s = is_network_probe_enabled s network_getsockname
is_guarded (Tracepoint.exit_getsockname _) s = is_network_probe_enabled s network_getsockname
is_guarded (Tracepoint.enter_getpeername _) s = is_network_probe_enabled s network_getpeername
is_guarded (Tracepoint.exit_getpeername _) s = is_network_probe_enabled s network_getpeername
is_guarded (Tracepoint.enter_setsockopt _) s = is_network_probe_enabled s network_setsockopt
is_guarded (Tracepoint.exit_setsockopt _) s = is_network_probe_enabled s network_setsockopt
is_guarded (Tracepoint.enter_getsockopt _) s = is_network_probe_enabled s network_getsockopt
is_guarded (Tracepoint.exit_getsockopt _) s = is_network_probe_enabled s network_getsockopt
is_guarded (Tracepoint.enter_sendto _) s = is_network_probe_enabled s network_sendto
is_guarded (Tracepoint.exit_sendto _) s = is_network_probe_enabled s network_sendto
is_guarded (Tracepoint.enter_sendmsg _) s = is_network_probe_enabled s network_sendmsg
is_guarded (Tracepoint.exit_sendmsg _) s = is_network_probe_enabled s network_sendmsg
is_guarded (Tracepoint.enter_recvfrom _) s = is_network_probe_enabled s network_recvfrom
is_guarded (Tracepoint.exit_recvfrom _) s = is_network_probe_enabled s network_recvfrom
is_guarded (Tracepoint.enter_recvmsg _) s = is_network_probe_enabled s network_recvmsg
is_guarded (Tracepoint.exit_recvmsg _) s = is_network_probe_enabled s network_recvmsg
is_guarded (Tracepoint.enter_read _) s = is_network_probe_enabled s network_read
is_guarded (Tracepoint.exit_read _) s = is_network_probe_enabled s network_read
is_guarded (Tracepoint.enter_write _) s = is_network_probe_enabled s network_write
is_guarded (Tracepoint.exit_write _) s = is_network_probe_enabled s network_write
is_guarded (Tracepoint.enter_readv _) s = is_network_probe_enabled s network_readv
is_guarded (Tracepoint.exit_readv _) s = is_network_probe_enabled s network_readv
is_guarded (Tracepoint.enter_writev _) s = is_network_probe_enabled s network_writev
is_guarded (Tracepoint.exit_writev _) s = is_network_probe_enabled s network_writev
is_guarded (Tracepoint.enter_sendmmsg _) s = is_network_probe_enabled s network_sendmmsg
is_guarded (Tracepoint.exit_sendmmsg _) s = is_network_probe_enabled s network_sendmmsg
is_guarded (Tracepoint.enter_recvmmsg _) s = is_network_probe_enabled s network_recvmmsg
is_guarded (Tracepoint.exit_recvmmsg _) s = is_network_probe_enabled s network_recvmmsg
is_guarded (Tracepoint.enter_shutdown _) s = is_network_probe_enabled s network_shutdown
is_guarded (Tracepoint.exit_shutdown _) s = is_network_probe_enabled s network_shutdown
is_guarded (Tracepoint.enter_close _) s = is_network_probe_enabled s network_close
is_guarded (Tracepoint.exit_close _) s = is_network_probe_enabled s network_close
