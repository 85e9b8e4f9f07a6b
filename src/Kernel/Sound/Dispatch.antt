-- ===== src/Kernel/Sound/Dispatch.antt =====
-- The effect of any tracepoint, by the frames of its handler.
use e_trace_gen_e_bpfevent_t.Base.{ℕ, ◌≡◌, refl, arith}
use e_trace_gen_e_bpfevent_t.Schema.{ProcessEvent, NetworkEvent}
use e_trace_gen_e_bpfevent_t.Schema.Kinds.{
  process_exec, process_fork, process_exit, process_clone, process_clone3, process_vfork,
  file_openat, file_unlinkat, file_renameat2, network_socket, network_socketpair, network_connect,
  network_bind, network_accept, network_accept4, network_listen, network_getsockname,
  network_getpeername, network_setsockopt, network_getsockopt, network_sendto, network_sendmsg,
  network_recvfrom, network_recvmsg, network_read, network_write, network_readv, network_writev,
  network_sendmmsg, network_recvmmsg, network_shutdown, network_close,
}
use e_trace_gen_e_bpfevent_t.Kernel.State.{KernelState, MapHelpers, IsMapHelpers}
use e_trace_gen_e_bpfevent_t.Kernel.Env.{Env, SysExit}
use e_trace_gen_e_bpfevent_t.Kernel.Process.{write_child, SchedExec}
use e_trace_gen_e_bpfevent_t.Kernel.Process
use e_trace_gen_e_bpfevent_t.Kernel.File.{write_openat, write_unlinkat, write_renameat2}
use e_trace_gen_e_bpfevent_t.Kernel.File
use e_trace_gen_e_bpfevent_t.Kernel.Network.Build.{
  read_msghdr, build_socket, build_socketpair, build_connect, build_bind, build_accept,
  build_accept4, build_listen, build_getsockname, build_getpeername, build_setsockopt,
  build_getsockopt, build_sendto, build_sendmsg, build_recvfrom, build_recvmsg, build_read,
  build_write, build_readv, build_writev, build_sendmmsg, build_recvmmsg, build_shutdown,
  build_close,
}
use e_trace_gen_e_bpfevent_t.Kernel.Network.Enter
use e_trace_gen_e_bpfevent_t.Kernel.Network.Exit
use e_trace_gen_e_bpfevent_t.Kernel.Call.{Tracepoint, Call, dispatch, run}
use e_trace_gen_e_bpfevent_t.Kernel.Sound.{IsSound, Effect}
use e_trace_gen_e_bpfevent_t.Kernel.Sound.Frames.{
  emit_process_event-Effect, file_enter-Effect, file_exit-Effect, on_raw_sys_enter-Effect,
  on_raw_sys_exit-Effect,
}
use e_trace_gen_e_bpfevent_t.Kernel.Sound.Network.{
  network_enter-Effect, socket_enter-Effect, network_exit-Effect,
}

write_child-hdr : (ctx : SysExit) (ev : ProcessEvent) → (write_child ctx ev).hdr ≡ ev.hdr
write_child-hdr ctx ev = ground arith

read_msghdr-hdr :
    (env : Env) (msg : ℕ) (ev : NetworkEvent)
    → ((read_msghdr env msg ev).hdr ≡ ev.hdr) × ((read_msghdr env msg ev).kind ≡ ev.kind)
unfolding read_msghdr
read_msghdr-hdr env msg ev = ground arith

module _ {h : MapHelpers} (laws : IsMapHelpers h) (env : Env) where
  pub dispatch-Effect :
      (at : Tracepoint) (s : KernelState) → IsSound s → Effect env s (dispatch h env at s)
  unfolding dispatch Process.on_sched_exec Process.on_sched_fork Process.on_sched_exit
      Process.on_sys_exit_clone Process.on_sys_exit_clone3 Process.on_sys_exit_vfork
      File.on_sys_enter_openat File.on_sys_exit_openat File.on_sys_enter_unlinkat
      File.on_sys_exit_unlinkat File.on_sys_enter_renameat2 File.on_sys_exit_renameat2
      Enter.on_sys_enter_socket Exit.on_sys_exit_socket Enter.on_sys_enter_socketpair
      Exit.on_sys_exit_socketpair Enter.on_sys_enter_connect Exit.on_sys_exit_connect
      Enter.on_sys_enter_bind Exit.on_sys_exit_bind Enter.on_sys_enter_accept
      Exit.on_sys_exit_accept Enter.on_sys_enter_accept4 Exit.on_sys_exit_accept4
      Enter.on_sys_enter_listen Exit.on_sys_exit_listen Enter.on_sys_enter_getsockname
      Exit.on_sys_exit_getsockname Enter.on_sys_enter_getpeername Exit.on_sys_exit_getpeername
      Enter.on_sys_enter_setsockopt Exit.on_sys_exit_setsockopt Enter.on_sys_enter_getsockopt
      Exit.on_sys_exit_getsockopt Enter.on_sys_enter_sendto Exit.on_sys_exit_sendto
      Enter.on_sys_enter_sendmsg Exit.on_sys_exit_sendmsg Enter.on_sys_enter_recvfrom
      Exit.on_sys_exit_recvfrom Enter.on_sys_enter_recvmsg Exit.on_sys_exit_recvmsg
      Enter.on_sys_enter_read Exit.on_sys_exit_read Enter.on_sys_enter_write Exit.on_sys_exit_write
      Enter.on_sys_enter_readv Exit.on_sys_exit_readv Enter.on_sys_enter_writev
      Exit.on_sys_exit_writev Enter.on_sys_enter_sendmmsg Exit.on_sys_exit_sendmmsg
      Enter.on_sys_enter_recvmmsg Exit.on_sys_exit_recvmmsg Enter.on_sys_enter_shutdown
      Exit.on_sys_exit_shutdown Enter.on_sys_enter_close Exit.on_sys_exit_close
  dispatch-Effect (Tracepoint.sched_exec ctx) s i =
      emit_process_event-Effect env process_exec _ (λ ev. refl) s i
  dispatch-Effect (Tracepoint.sched_fork child_pid) s i =
      emit_process_event-Effect env process_fork _ (λ ev. refl) s i
  dispatch-Effect Tracepoint.sched_exit s i =
      emit_process_event-Effect env process_exit _ (λ ev. refl) s i
  dispatch-Effect (Tracepoint.exit_clone ctx) s i =
      emit_process_event-Effect env process_clone _ (write_child-hdr ctx) s i
  dispatch-Effect (Tracepoint.exit_clone3 ctx) s i =
      emit_process_event-Effect env process_clone3 _ (write_child-hdr ctx) s i
  dispatch-Effect (Tracepoint.exit_vfork ctx) s i =
      emit_process_event-Effect env process_vfork _ (write_child-hdr ctx) s i
  dispatch-Effect (Tracepoint.enter_openat ctx) s i =
      file_enter-Effect laws env file_openat (write_openat env ctx) s (λ ev. (refl, refl, refl)) i
  dispatch-Effect (Tracepoint.exit_openat ctx) s i = file_exit-Effect laws env file_openat ctx s i
  dispatch-Effect (Tracepoint.enter_unlinkat ctx) s i =
      file_enter-Effect laws env file_unlinkat (write_unlinkat env ctx) s (λ ev. (refl, refl, refl))
        i
  dispatch-Effect (Tracepoint.exit_unlinkat ctx) s i =
      file_exit-Effect laws env file_unlinkat ctx s i
  dispatch-Effect (Tracepoint.enter_renameat2 ctx) s i =
      file_enter-Effect laws env file_renameat2 (write_renameat2 env ctx) s
        (λ ev. (refl, refl, refl)) i
  dispatch-Effect (Tracepoint.exit_renameat2 ctx) s i =
      file_exit-Effect laws env file_renameat2 ctx s i
  dispatch-Effect (Tracepoint.raw_enter ctx) s i = on_raw_sys_enter-Effect laws env ctx s i
  dispatch-Effect (Tracepoint.raw_exit ctx) s i = on_raw_sys_exit-Effect laws env ctx s i
  dispatch-Effect (Tracepoint.enter_socket ctx) s i =
      network_enter-Effect laws env network_socket (build_socket env ctx) s (λ ev. (refl, refl)) i
  dispatch-Effect (Tracepoint.exit_socket ctx) s i =
      network_exit-Effect laws env network_socket ctx s i
  dispatch-Effect (Tracepoint.enter_socketpair ctx) s i =
      network_enter-Effect laws env network_socketpair (build_socketpair env ctx) s
        (λ ev. (refl, refl)) i
  dispatch-Effect (Tracepoint.exit_socketpair ctx) s i =
      network_exit-Effect laws env network_socketpair ctx s i
  dispatch-Effect (Tracepoint.enter_connect ctx) s i =
      network_enter-Effect laws env network_connect (build_connect env ctx) s (λ ev. (refl, refl)) i
  dispatch-Effect (Tracepoint.exit_connect ctx) s i =
      network_exit-Effect laws env network_connect ctx s i
  dispatch-Effect (Tracepoint.enter_bind ctx) s i =
      network_enter-Effect laws env network_bind (build_bind env ctx) s (λ ev. (refl, refl)) i
  dispatch-Effect (Tracepoint.exit_bind ctx) s i = network_exit-Effect laws env network_bind ctx s i
  dispatch-Effect (Tracepoint.enter_accept ctx) s i =
      network_enter-Effect laws env network_accept (build_accept env ctx) s (λ ev. (refl, refl)) i
  dispatch-Effect (Tracepoint.exit_accept ctx) s i =
      network_exit-Effect laws env network_accept ctx s i
  dispatch-Effect (Tracepoint.enter_accept4 ctx) s i =
      network_enter-Effect laws env network_accept4 (build_accept4 env ctx) s (λ ev. (refl, refl)) i
  dispatch-Effect (Tracepoint.exit_accept4 ctx) s i =
      network_exit-Effect laws env network_accept4 ctx s i
  dispatch-Effect (Tracepoint.enter_listen ctx) s i =
      network_enter-Effect laws env network_listen (build_listen env ctx) s (λ ev. (refl, refl)) i
  dispatch-Effect (Tracepoint.exit_listen ctx) s i =
      network_exit-Effect laws env network_listen ctx s i
  dispatch-Effect (Tracepoint.enter_getsockname ctx) s i =
      network_enter-Effect laws env network_getsockname (build_getsockname env ctx) s
        (λ ev. (refl, refl)) i
  dispatch-Effect (Tracepoint.exit_getsockname ctx) s i =
      network_exit-Effect laws env network_getsockname ctx s i
  dispatch-Effect (Tracepoint.enter_getpeername ctx) s i =
      network_enter-Effect laws env network_getpeername (build_getpeername env ctx) s
        (λ ev. (refl, refl)) i
  dispatch-Effect (Tracepoint.exit_getpeername ctx) s i =
      network_exit-Effect laws env network_getpeername ctx s i
  dispatch-Effect (Tracepoint.enter_setsockopt ctx) s i =
      network_enter-Effect laws env network_setsockopt (build_setsockopt env ctx) s
        (λ ev. (refl, refl)) i
  dispatch-Effect (Tracepoint.exit_setsockopt ctx) s i =
      network_exit-Effect laws env network_setsockopt ctx s i
  dispatch-Effect (Tracepoint.enter_getsockopt ctx) s i =
      network_enter-Effect laws env network_getsockopt (build_getsockopt env ctx) s
        (λ ev. (refl, refl)) i
  dispatch-Effect (Tracepoint.exit_getsockopt ctx) s i =
      network_exit-Effect laws env network_getsockopt ctx s i
  dispatch-Effect (Tracepoint.enter_sendto ctx) s i =
      network_enter-Effect laws env network_sendto (build_sendto env ctx) s (λ ev. (refl, refl)) i
  dispatch-Effect (Tracepoint.exit_sendto ctx) s i =
      network_exit-Effect laws env network_sendto ctx s i
  dispatch-Effect (Tracepoint.enter_sendmsg ctx) s i =
      network_enter-Effect laws env network_sendmsg (build_sendmsg env ctx) s
        (λ ev. read_msghdr-hdr env _ _) i
  dispatch-Effect (Tracepoint.exit_sendmsg ctx) s i =
      network_exit-Effect laws env network_sendmsg ctx s i
  dispatch-Effect (Tracepoint.enter_recvfrom ctx) s i =
      network_enter-Effect laws env network_recvfrom (build_recvfrom env ctx) s (λ ev. (refl, refl))
        i
  dispatch-Effect (Tracepoint.exit_recvfrom ctx) s i =
      network_exit-Effect laws env network_recvfrom ctx s i
  dispatch-Effect (Tracepoint.enter_recvmsg ctx) s i =
      network_enter-Effect laws env network_recvmsg (build_recvmsg env ctx) s
        (λ ev. read_msghdr-hdr env _ _) i
  dispatch-Effect (Tracepoint.exit_recvmsg ctx) s i =
      network_exit-Effect laws env network_recvmsg ctx s i
  dispatch-Effect (Tracepoint.enter_read ctx) s i =
      socket_enter-Effect laws env network_read _ (build_read env ctx) s (λ ev. (refl, refl)) i
  dispatch-Effect (Tracepoint.exit_read ctx) s i = network_exit-Effect laws env network_read ctx s i
  dispatch-Effect (Tracepoint.enter_write ctx) s i =
      socket_enter-Effect laws env network_write _ (build_write env ctx) s (λ ev. (refl, refl)) i
  dispatch-Effect (Tracepoint.exit_write ctx) s i =
      network_exit-Effect laws env network_write ctx s i
  dispatch-Effect (Tracepoint.enter_readv ctx) s i =
      socket_enter-Effect laws env network_readv _ (build_readv env ctx) s (λ ev. (refl, refl)) i
  dispatch-Effect (Tracepoint.exit_readv ctx) s i =
      network_exit-Effect laws env network_readv ctx s i
  dispatch-Effect (Tracepoint.enter_writev ctx) s i =
      socket_enter-Effect laws env network_writev _ (build_writev env ctx) s (λ ev. (refl, refl)) i
  dispatch-Effect (Tracepoint.exit_writev ctx) s i =
      network_exit-Effect laws env network_writev ctx s i
  dispatch-Effect (Tracepoint.enter_sendmmsg ctx) s i =
      socket_enter-Effect laws env network_sendmmsg _ (build_sendmmsg env ctx) s
        (λ ev. (refl, refl)) i
  dispatch-Effect (Tracepoint.exit_sendmmsg ctx) s i =
      network_exit-Effect laws env network_sendmmsg ctx s i
  dispatch-Effect (Tracepoint.enter_recvmmsg ctx) s i =
      socket_enter-Effect laws env network_recvmmsg _ (build_recvmmsg env ctx) s
        (λ ev. (refl, refl)) i
  dispatch-Effect (Tracepoint.exit_recvmmsg ctx) s i =
      network_exit-Effect laws env network_recvmmsg ctx s i
  dispatch-Effect (Tracepoint.enter_shutdown ctx) s i =
      network_enter-Effect laws env network_shutdown (build_shutdown env ctx) s (λ ev. (refl, refl))
        i
  dispatch-Effect (Tracepoint.exit_shutdown ctx) s i =
      network_exit-Effect laws env network_shutdown ctx s i
  dispatch-Effect (Tracepoint.enter_close ctx) s i =
      socket_enter-Effect laws env network_close _ (build_close env ctx) s (λ ev. (refl, refl)) i
  dispatch-Effect (Tracepoint.exit_close ctx) s i =
      network_exit-Effect laws env network_close ctx s i

module _ {h : MapHelpers} (laws : IsMapHelpers h) where
  pub run-Effect : (c : Call) (s : KernelState) → IsSound s → Effect c.env s (run h c s)
  unfolding run
  run-Effect c s i = dispatch-Effect laws c.env c.at s i
