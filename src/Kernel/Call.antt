-- ===== src/Kernel/Call.antt =====
-- An invocation of one of the BPF programs, and histories of invocations. bpf/event_logger.bpf.c
-- puts the programs of the four families into one object.
use e_trace_gen_e_bpfevent_t.Base.{ℤ, List, [], ◌∷◌}
use e_trace_gen_e_bpfevent_t.Kernel.State.{KernelState, MapHelpers}
use e_trace_gen_e_bpfevent_t.Kernel.Env.{Env, SysEnter, SysExit}
use e_trace_gen_e_bpfevent_t.Kernel.Process
use e_trace_gen_e_bpfevent_t.Kernel.Process.{SchedExec}
use e_trace_gen_e_bpfevent_t.Kernel.File
use e_trace_gen_e_bpfevent_t.Kernel.Syscall
use e_trace_gen_e_bpfevent_t.Kernel.Network.Enter
use e_trace_gen_e_bpfevent_t.Kernel.Network.Exit

-- The tracepoint that fired, with its context.
pub data Tracepoint : Type 0 where
  sched_exec : SchedExec → Tracepoint
  sched_fork : ℤ → Tracepoint
  sched_exit : Tracepoint
  exit_clone exit_clone3 exit_vfork : SysExit → Tracepoint
  enter_openat enter_unlinkat enter_renameat2 : SysEnter → Tracepoint
  exit_openat exit_unlinkat exit_renameat2 : SysExit → Tracepoint
  raw_enter : SysEnter → Tracepoint
  raw_exit : SysExit → Tracepoint
  enter_socket enter_socketpair enter_connect enter_bind enter_accept : SysEnter → Tracepoint
  enter_accept4 enter_listen enter_getsockname enter_getpeername enter_setsockopt :
      SysEnter → Tracepoint
  enter_getsockopt enter_sendto enter_sendmsg enter_recvfrom enter_recvmsg : SysEnter → Tracepoint
  enter_read enter_write enter_readv enter_writev enter_sendmmsg : SysEnter → Tracepoint
  enter_recvmmsg enter_shutdown enter_close : SysEnter → Tracepoint
  exit_socket exit_socketpair exit_connect exit_bind exit_accept : SysExit → Tracepoint
  exit_accept4 exit_listen exit_getsockname exit_getpeername exit_setsockopt : SysExit → Tracepoint
  exit_getsockopt exit_sendto exit_sendmsg exit_recvfrom exit_recvmsg : SysExit → Tracepoint
  exit_read exit_write exit_readv exit_writev exit_sendmmsg : SysExit → Tracepoint
  exit_recvmmsg exit_shutdown exit_close : SysExit → Tracepoint

-- A tracepoint in the circumstances of its task.
pub record Call : Type 0 where
  pub env : Env
  pub at : Tracepoint

module _ (h : MapHelpers) (env : Env) where
  -- The program that is attached to the tracepoint.
  unfoldable pub dispatch : Tracepoint → KernelState → KernelState
  dispatch (sched_exec ctx) = Process.on_sched_exec env ctx
  dispatch (sched_fork child_pid) = Process.on_sched_fork env child_pid
  dispatch sched_exit = Process.on_sched_exit env
  dispatch (exit_clone ctx) = Process.on_sys_exit_clone env ctx
  dispatch (exit_clone3 ctx) = Process.on_sys_exit_clone3 env ctx
  dispatch (exit_vfork ctx) = Process.on_sys_exit_vfork env ctx
  dispatch (enter_openat ctx) = File.on_sys_enter_openat h env ctx
  dispatch (exit_openat ctx) = File.on_sys_exit_openat h env ctx
  dispatch (enter_unlinkat ctx) = File.on_sys_enter_unlinkat h env ctx
  dispatch (exit_unlinkat ctx) = File.on_sys_exit_unlinkat h env ctx
  dispatch (enter_renameat2 ctx) = File.on_sys_enter_renameat2 h env ctx
  dispatch (exit_renameat2 ctx) = File.on_sys_exit_renameat2 h env ctx
  dispatch (raw_enter ctx) = Syscall.on_raw_sys_enter h env ctx
  dispatch (raw_exit ctx) = Syscall.on_raw_sys_exit h env ctx
  dispatch (enter_socket ctx) = Enter.on_sys_enter_socket h env ctx
  dispatch (exit_socket ctx) = Exit.on_sys_exit_socket h env ctx
  dispatch (enter_socketpair ctx) = Enter.on_sys_enter_socketpair h env ctx
  dispatch (exit_socketpair ctx) = Exit.on_sys_exit_socketpair h env ctx
  dispatch (enter_connect ctx) = Enter.on_sys_enter_connect h env ctx
  dispatch (exit_connect ctx) = Exit.on_sys_exit_connect h env ctx
  dispatch (enter_bind ctx) = Enter.on_sys_enter_bind h env ctx
  dispatch (exit_bind ctx) = Exit.on_sys_exit_bind h env ctx
  dispatch (enter_accept ctx) = Enter.on_sys_enter_accept h env ctx
  dispatch (exit_accept ctx) = Exit.on_sys_exit_accept h env ctx
  dispatch (enter_accept4 ctx) = Enter.on_sys_enter_accept4 h env ctx
  dispatch (exit_accept4 ctx) = Exit.on_sys_exit_accept4 h env ctx
  dispatch (enter_listen ctx) = Enter.on_sys_enter_listen h env ctx
  dispatch (exit_listen ctx) = Exit.on_sys_exit_listen h env ctx
  dispatch (enter_getsockname ctx) = Enter.on_sys_enter_getsockname h env ctx
  dispatch (exit_getsockname ctx) = Exit.on_sys_exit_getsockname h env ctx
  dispatch (enter_getpeername ctx) = Enter.on_sys_enter_getpeername h env ctx
  dispatch (exit_getpeername ctx) = Exit.on_sys_exit_getpeername h env ctx
  dispatch (enter_setsockopt ctx) = Enter.on_sys_enter_setsockopt h env ctx
  dispatch (exit_setsockopt ctx) = Exit.on_sys_exit_setsockopt h env ctx
  dispatch (enter_getsockopt ctx) = Enter.on_sys_enter_getsockopt h env ctx
  dispatch (exit_getsockopt ctx) = Exit.on_sys_exit_getsockopt h env ctx
  dispatch (enter_sendto ctx) = Enter.on_sys_enter_sendto h env ctx
  dispatch (exit_sendto ctx) = Exit.on_sys_exit_sendto h env ctx
  dispatch (enter_sendmsg ctx) = Enter.on_sys_enter_sendmsg h env ctx
  dispatch (exit_sendmsg ctx) = Exit.on_sys_exit_sendmsg h env ctx
  dispatch (enter_recvfrom ctx) = Enter.on_sys_enter_recvfrom h env ctx
  dispatch (exit_recvfrom ctx) = Exit.on_sys_exit_recvfrom h env ctx
  dispatch (enter_recvmsg ctx) = Enter.on_sys_enter_recvmsg h env ctx
  dispatch (exit_recvmsg ctx) = Exit.on_sys_exit_recvmsg h env ctx
  dispatch (enter_read ctx) = Enter.on_sys_enter_read h env ctx
  dispatch (exit_read ctx) = Exit.on_sys_exit_read h env ctx
  dispatch (enter_write ctx) = Enter.on_sys_enter_write h env ctx
  dispatch (exit_write ctx) = Exit.on_sys_exit_write h env ctx
  dispatch (enter_readv ctx) = Enter.on_sys_enter_readv h env ctx
  dispatch (exit_readv ctx) = Exit.on_sys_exit_readv h env ctx
  dispatch (enter_writev ctx) = Enter.on_sys_enter_writev h env ctx
  dispatch (exit_writev ctx) = Exit.on_sys_exit_writev h env ctx
  dispatch (enter_sendmmsg ctx) = Enter.on_sys_enter_sendmmsg h env ctx
  dispatch (exit_sendmmsg ctx) = Exit.on_sys_exit_sendmmsg h env ctx
  dispatch (enter_recvmmsg ctx) = Enter.on_sys_enter_recvmmsg h env ctx
  dispatch (exit_recvmmsg ctx) = Exit.on_sys_exit_recvmmsg h env ctx
  dispatch (enter_shutdown ctx) = Enter.on_sys_enter_shutdown h env ctx
  dispatch (exit_shutdown ctx) = Exit.on_sys_exit_shutdown h env ctx
  dispatch (enter_close ctx) = Enter.on_sys_enter_close h env ctx
  dispatch (exit_close ctx) = Exit.on_sys_exit_close h env ctx

unfoldable pub run : MapHelpers → Call → KernelState → KernelState
run h c = dispatch h c.env c.at

-- A history, oldest call first.
unfoldable pub run_all : MapHelpers → List Call → KernelState → KernelState
run_all h [] s = s
run_all h (c ∷ cs) s = run_all h cs (run h c s)
