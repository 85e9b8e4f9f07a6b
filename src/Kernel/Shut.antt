-- ===== src/Kernel/Shut.antt =====
-- The gates in front of every program: the switch of its probe, and the suppression of the
-- collector itself.
use e_trace_gen_e_bpfevent_t.Base.{ℕ, ℤ, false, ◌&&◌, ◌≡◌, arith}
use e_trace_gen_e_bpfevent_t.Schema.{ProcessEvent, FileEvent, NetworkEvent}
use e_trace_gen_e_bpfevent_t.Schema.Kinds.{
  process_exec, process_fork, process_exit, process_clone, process_clone3, process_vfork,
  file_openat, file_unlinkat, file_renameat2, network_socket, network_socketpair, network_connect,
  network_bind, network_accept, network_accept4, network_listen, network_getsockname,
  network_getpeername, network_setsockopt, network_getsockopt, network_sendto, network_sendmsg,
  network_recvfrom, network_recvmsg, network_read, network_write, network_readv, network_writev,
  network_sendmmsg, network_recvmmsg, network_shutdown, network_close,
}
use e_trace_gen_e_bpfevent_t.Kernel.State.{KernelState, MapHelpers, NetworkStateValue}
use e_trace_gen_e_bpfevent_t.Kernel.Env.{Env, SysEnter, SysExit}
use e_trace_gen_e_bpfevent_t.Kernel.Gate.{
  is_event_allowed, is_process_probe_enabled, is_file_probe_enabled, is_syscall_probe_enabled,
  is_network_probe_enabled,
}
use e_trace_gen_e_bpfevent_t.Kernel.Process
use e_trace_gen_e_bpfevent_t.Kernel.Process.{emit_process_event}
use e_trace_gen_e_bpfevent_t.Kernel.File
use e_trace_gen_e_bpfevent_t.Kernel.File.{
  file_enter, file_exit, write_openat, write_unlinkat, write_renameat2,
}
use e_trace_gen_e_bpfevent_t.Kernel.Syscall.{on_raw_sys_enter, on_raw_sys_exit}
use e_trace_gen_e_bpfevent_t.Kernel.Network.Build.{
  build_socket, build_socketpair, build_connect, build_bind, build_accept, build_accept4,
  build_listen, build_getsockname, build_getpeername, build_setsockopt, build_getsockopt,
  build_sendto, build_sendmsg, build_recvfrom, build_recvmsg, build_read, build_write, build_readv,
  build_writev, build_sendmmsg, build_recvmmsg, build_shutdown, build_close,
}
use e_trace_gen_e_bpfevent_t.Kernel.Network.Enter
use e_trace_gen_e_bpfevent_t.Kernel.Network.Enter.{network_enter, socket_enter}
use e_trace_gen_e_bpfevent_t.Kernel.Network.Exit
use e_trace_gen_e_bpfevent_t.Kernel.Network.Exit.{network_exit}
use e_trace_gen_e_bpfevent_t.Kernel.Call.{Tracepoint, dispatch}
use e_trace_gen_e_bpfevent_t.Kernel.Guard.{is_guarded}

module _ (env : Env) (kind : ℕ) where
  emit_process_event_shut :
      (write : ProcessEvent → ProcessEvent) (s : KernelState)
      → (is_event_allowed env s && is_process_probe_enabled s kind) ≡ false
      → emit_process_event env kind write s ≡ s
  unfolding emit_process_event
  emit_process_event_shut write s shut = ground arith

module _ (h : MapHelpers) (env : Env) (kind : ℕ) where
  file_enter_shut :
      (write : FileEvent → FileEvent) (s : KernelState)
      → (is_event_allowed env s && is_file_probe_enabled s kind) ≡ false
      → file_enter h env kind write s ≡ s
  unfolding file_enter
  file_enter_shut write s shut = ground arith

  file_exit_shut :
      (ctx : SysExit) (s : KernelState)
      → (is_event_allowed env s && is_file_probe_enabled s kind) ≡ false
      → file_exit h env kind ctx s ≡ s
  unfolding file_exit
  file_exit_shut ctx s shut = ground arith

  network_enter_shut :
      (build : NetworkEvent → NetworkStateValue) (s : KernelState)
      → (is_event_allowed env s && is_network_probe_enabled s kind) ≡ false
      → network_enter h env kind build s ≡ s
  unfolding network_enter
  network_enter_shut build s shut = ground arith

  socket_enter_shut :
      (fd : ℤ) (build : NetworkEvent → NetworkStateValue) (s : KernelState)
      → (is_event_allowed env s && is_network_probe_enabled s kind) ≡ false
      → socket_enter h env kind fd build s ≡ s
  unfolding socket_enter
  socket_enter_shut fd build s shut = ground arith

  network_exit_shut :
      (ctx : SysExit) (s : KernelState)
      → (is_event_allowed env s && is_network_probe_enabled s kind) ≡ false
      → network_exit h env kind ctx s ≡ s
  unfolding network_exit
  network_exit_shut ctx s shut = ground arith

module _ (h : MapHelpers) (env : Env) where
  on_raw_sys_enter_shut :
      (ctx : SysEnter) (s : KernelState)
      → (is_event_allowed env s && is_syscall_probe_enabled s) ≡ false
      → on_raw_sys_enter h env ctx s ≡ s
  unfolding on_raw_sys_enter
  on_raw_sys_enter_shut ctx s shut = ground arith

  on_raw_sys_exit_shut :
      (ctx : SysExit) (s : KernelState)
      → (is_event_allowed env s && is_syscall_probe_enabled s) ≡ false
      → on_raw_sys_exit h env ctx s ≡ s
  unfolding on_raw_sys_exit
  on_raw_sys_exit_shut ctx s shut = ground arith

  -- A program whose task is suppressed, or whose switch is off, changes nothing: no record, no
  -- counter, no map.
  pub dispatch_shut :
      (at : Tracepoint) (s : KernelState)
      → (is_event_allowed env s && is_guarded at s) ≡ false
      → dispatch h env at s ≡ s
  unfolding dispatch Process.on_sched_exec Process.on_sched_fork Process.on_sched_exit
      Process.on_sys_exit_clone Process.on_sys_exit_clone3 Process.on_sys_exit_vfork
      File.on_sys_enter_openat File.on_sys_exit_openat File.on_sys_enter_unlinkat
      File.on_sys_exit_unlinkat File.on_sys_enter_renameat2 File.on_sys_exit_renameat2
      Enter.on_sys_enter_socket Exit.on_sys_exit_socket Enter.on_sys_enter_socketpair
      Exit.on_sys_exit_socketpair Enter.on_sys_enter_connect Exit.on_sys_exit_connect
      Enter.on_sys_enter_bind Exit.on_sys_exit_bind Enter.on_sys_enter_accept
      Exit.on_sys_exit_accept Enter.on_sys_enter_accept4 Exit.on_sys_exit_accept4
      Enter.on_sys_enter_listen Exit.on_sys_exit_listen Enter.on_sys_enter_getsockname
      Exit.on_sys_exit_getsockname Enter.on_sys_enter_getpeername Exit.on_sys_exit_getpeername
      Enter.on_sys_enter_setsockopt Exit.on_sys_exit_setsockopt Enter.on_sys_enter_getsockopt
      Exit.on_sys_exit_getsockopt Enter.on_sys_enter_sendto Exit.on_sys_exit_sendto
      Enter.on_sys_enter_sendmsg Exit.on_sys_exit_sendmsg Enter.on_sys_enter_recvfrom
      Exit.on_sys_exit_recvfrom Enter.on_sys_enter_recvmsg Exit.on_sys_exit_recvmsg
      Enter.on_sys_enter_read Exit.on_sys_exit_read Enter.on_sys_enter_write Exit.on_sys_exit_write
      Enter.on_sys_enter_readv Exit.on_sys_exit_readv Enter.on_sys_enter_writev
      Exit.on_sys_exit_writev Enter.on_sys_enter_sendmmsg Exit.on_sys_exit_sendmmsg
      Enter.on_sys_enter_recvmmsg Exit.on_sys_exit_recvmmsg Enter.on_sys_enter_shutdown
      Exit.on_sys_exit_shutdown Enter.on_sys_enter_close Exit.on_sys_exit_close
  dispatch_shut (Tracepoint.sched_exec ctx) s shut =
      emit_process_event_shut env process_exec _ s shut
  dispatch_shut (Tracepoint.sched_fork child_pid) s shut =
      emit_process_event_shut env process_fork _ s shut
  dispatch_shut Tracepoint.sched_exit s shut = emit_process_event_shut env process_exit _ s shut
  dispatch_shut (Tracepoint.exit_clone ctx) s shut =
      emit_process_event_shut env process_clone _ s shut
  dispatch_shut (Tracepoint.exit_clone3 ctx) s shut =
      emit_process_event_shut env process_clone3 _ s shut
  dispatch_shut (Tracepoint.exit_vfork ctx) s shut =
      emit_process_event_shut env process_vfork _ s shut
  dispatch_shut (Tracepoint.enter_openat ctx) s shut =
      file_enter_shut h env file_openat (write_openat env ctx) s shut
  dispatch_shut (Tracepoint.exit_openat ctx) s shut = file_exit_shut h env file_openat ctx s shut
  dispatch_shut (Tracepoint.enter_unlinkat ctx) s shut =
      file_enter_shut h env file_unlinkat (write_unlinkat env ctx) s shut
  dispatch_shut (Tracepoint.exit_unlinkat ctx) s shut =
      file_exit_shut h env file_unlinkat ctx s shut
  dispatch_shut (Tracepoint.enter_renameat2 ctx) s shut =
      file_enter_shut h env file_renameat2 (write_renameat2 env ctx) s shut
  dispatch_shut (Tracepoint.exit_renameat2 ctx) s shut =
      file_exit_shut h env file_renameat2 ctx s shut
  dispatch_shut (Tracepoint.raw_enter ctx) s shut = on_raw_sys_enter_shut ctx s shut
  dispatch_shut (Tracepoint.raw_exit ctx) s shut = on_raw_sys_exit_shut ctx s shut
  dispatch_shut (Tracepoint.enter_socket ctx) s shut =
      network_enter_shut h env network_socket (build_socket env ctx) s shut
  dispatch_shut (Tracepoint.exit_socket ctx) s shut =
      network_exit_shut h env network_socket ctx s shut
  dispatch_shut (Tracepoint.enter_socketpair ctx) s shut =
      network_enter_shut h env network_socketpair (build_socketpair env ctx) s shut
  dispatch_shut (Tracepoint.exit_socketpair ctx) s shut =
      network_exit_shut h env network_socketpair ctx s shut
  dispatch_shut (Tracepoint.enter_connect ctx) s shut =
      network_enter_shut h env network_connect (build_connect env ctx) s shut
  dispatch_shut (Tracepoint.exit_connect ctx) s shut =
      network_exit_shut h env network_connect ctx s shut
  dispatch_shut (Tracepoint.enter_bind ctx) s shut =
      network_enter_shut h env network_bind (build_bind env ctx) s shut
  dispatch_shut (Tracepoint.exit_bind ctx) s shut = network_exit_shut h env network_bind ctx s shut
  dispatch_shut (Tracepoint.enter_accept ctx) s shut =
      network_enter_shut h env network_accept (build_accept env ctx) s shut
  dispatch_shut (Tracepoint.exit_accept ctx) s shut =
      network_exit_shut h env network_accept ctx s shut
  dispatch_shut (Tracepoint.enter_accept4 ctx) s shut =
      network_enter_shut h env network_accept4 (build_accept4 env ctx) s shut
  dispatch_shut (Tracepoint.exit_accept4 ctx) s shut =
      network_exit_shut h env network_accept4 ctx s shut
  dispatch_shut (Tracepoint.enter_listen ctx) s shut =
      network_enter_shut h env network_listen (build_listen env ctx) s shut
  dispatch_shut (Tracepoint.exit_listen ctx) s shut =
      network_exit_shut h env network_listen ctx s shut
  dispatch_shut (Tracepoint.enter_getsockname ctx) s shut =
      network_enter_shut h env network_getsockname (build_getsockname env ctx) s shut
  dispatch_shut (Tracepoint.exit_getsockname ctx) s shut =
      network_exit_shut h env network_getsockname ctx s shut
  dispatch_shut (Tracepoint.enter_getpeername ctx) s shut =
      network_enter_shut h env network_getpeername (build_getpeername env ctx) s shut
  dispatch_shut (Tracepoint.exit_getpeername ctx) s shut =
      network_exit_shut h env network_getpeername ctx s shut
  dispatch_shut (Tracepoint.enter_setsockopt ctx) s shut =
      network_enter_shut h env network_setsockopt (build_setsockopt env ctx) s shut
  dispatch_shut (Tracepoint.exit_setsockopt ctx) s shut =
      network_exit_shut h env network_setsockopt ctx s shut
  dispatch_shut (Tracepoint.enter_getsockopt ctx) s shut =
      network_enter_shut h env network_getsockopt (build_getsockopt env ctx) s shut
  dispatch_shut (Tracepoint.exit_getsockopt ctx) s shut =
      network_exit_shut h env network_getsockopt ctx s shut
  dispatch_shut (Tracepoint.enter_sendto ctx) s shut =
      network_enter_shut h env network_sendto (build_sendto env ctx) s shut
  dispatch_shut (Tracepoint.exit_sendto ctx) s shut =
      network_exit_shut h env network_sendto ctx s shut
  dispatch_shut (Tracepoint.enter_sendmsg ctx) s shut =
      network_enter_shut h env network_sendmsg (build_sendmsg env ctx) s shut
  dispatch_shut (Tracepoint.exit_sendmsg ctx) s shut =
      network_exit_shut h env network_sendmsg ctx s shut
  dispatch_shut (Tracepoint.enter_recvfrom ctx) s shut =
      network_enter_shut h env network_recvfrom (build_recvfrom env ctx) s shut
  dispatch_shut (Tracepoint.exit_recvfrom ctx) s shut =
      network_exit_shut h env network_recvfrom ctx s shut
  dispatch_shut (Tracepoint.enter_recvmsg ctx) s shut =
      network_enter_shut h env network_recvmsg (build_recvmsg env ctx) s shut
  dispatch_shut (Tracepoint.exit_recvmsg ctx) s shut =
      network_exit_shut h env network_recvmsg ctx s shut
  dispatch_shut (Tracepoint.enter_read ctx) s shut =
      socket_enter_shut h env network_read _ (build_read env ctx) s shut
  dispatch_shut (Tracepoint.exit_read ctx) s shut = network_exit_shut h env network_read ctx s shut
  dispatch_shut (Tracepoint.enter_write ctx) s shut =
      socket_enter_shut h env network_write _ (build_write env ctx) s shut
  dispatch_shut (Tracepoint.exit_write ctx) s shut =
      network_exit_shut h env network_write ctx s shut
  dispatch_shut (Tracepoint.enter_readv ctx) s shut =
      socket_enter_shut h env network_readv _ (build_readv env ctx) s shut
  dispatch_shut (Tracepoint.exit_readv ctx) s shut =
      network_exit_shut h env network_readv ctx s shut
  dispatch_shut (Tracepoint.enter_writev ctx) s shut =
      socket_enter_shut h env network_writev _ (build_writev env ctx) s shut
  dispatch_shut (Tracepoint.exit_writev ctx) s shut =
      network_exit_shut h env network_writev ctx s shut
  dispatch_shut (Tracepoint.enter_sendmmsg ctx) s shut =
      socket_enter_shut h env network_sendmmsg _ (build_sendmmsg env ctx) s shut
  dispatch_shut (Tracepoint.exit_sendmmsg ctx) s shut =
      network_exit_shut h env network_sendmmsg ctx s shut
  dispatch_shut (Tracepoint.enter_recvmmsg ctx) s shut =
      socket_enter_shut h env network_recvmmsg _ (build_recvmmsg env ctx) s shut
  dispatch_shut (Tracepoint.exit_recvmmsg ctx) s shut =
      network_exit_shut h env network_recvmmsg ctx s shut
  dispatch_shut (Tracepoint.enter_shutdown ctx) s shut =
      network_enter_shut h env network_shutdown (build_shutdown env ctx) s shut
  dispatch_shut (Tracepoint.exit_shutdown ctx) s shut =
      network_exit_shut h env network_shutdown ctx s shut
  dispatch_shut (Tracepoint.enter_close ctx) s shut =
      socket_enter_shut h env network_close _ (build_close env ctx) s shut
  dispatch_shut (Tracepoint.exit_close ctx) s shut =
      network_exit_shut h env network_close ctx s shut
