-- ===== src/Kernel/Process.antt =====
-- bpf/event_logger_process.bpf.c: each handler fills one record and submits it.
use e_trace_gen_e_bpfevent_t.Base.{
  ℕ, ℤ, none, some, [], ◌∷◌, ◌++◌, ◌+◌, ◌%◌, ◌^◌, not, ◌||◌, u64, to_bits, is_positive,
  if◌then◌else◌,
}
use e_trace_gen_e_bpfevent_t.Schema.{Event, ProcessEvent}
use e_trace_gen_e_bpfevent_t.Schema.Kinds.{
  process_exec, process_fork, process_exit, process_clone, process_clone3, process_vfork, path_len,
}
use e_trace_gen_e_bpfevent_t.Kernel.State.{KernelState}
use e_trace_gen_e_bpfevent_t.Kernel.Env.{Env, SysExit}
use e_trace_gen_e_bpfevent_t.Kernel.Gate.{is_event_allowed, is_process_probe_enabled}
use e_trace_gen_e_bpfevent_t.Kernel.Reserve.{reserve_process_event, get_current_exit_code}

-- `bpf_ringbuf_submit`
abbrev pub submit : Event → KernelState → KernelState
submit ev s = record s { events = s.events ++ ev ∷ [] }

-- The frame of every process handler: the gates, the reservation, the handler's own writes, and
-- the submission.
unfoldable pub emit_process_event :
    Env → ℕ → (ProcessEvent → ProcessEvent) → KernelState → KernelState
emit_process_event env kind write s =
    if not (is_event_allowed env s) || not (is_process_probe_enabled s kind)
    then s
    else let (slot, s') = reserve_process_event env kind s in
      elim slot [ none ↦ s' | some ev ↦ submit (Event.process (write ev)) s' ]

-- `struct trace_event_raw_sched_process_exec`: its address and the `__data_loc` of the file name.
pub record SchedExec : Type 0 where
  pub address : ℕ
  pub data_loc_filename : ℕ

unfoldable pub on_sched_exec : Env → SchedExec → KernelState → KernelState
unfolding emit_process_event
on_sched_exec env ctx = emit_process_event env process_exec λ ev. record ev {
  exec_path =
      (env.probe_read_kernel_str (u64 (ctx.address + ctx.data_loc_filename % 2 ^ 16)) path_len
        ev.exec_path).1;
}

unfoldable pub on_sched_fork : Env → ℤ → KernelState → KernelState
unfolding emit_process_event
on_sched_fork env child_pid =
    emit_process_event env process_fork λ ev. record ev { child_pid = to_bits 32 child_pid }

unfoldable pub on_sched_exit : Env → KernelState → KernelState
unfolding emit_process_event
on_sched_exit env =
    emit_process_event env process_exit λ ev. record ev { exit_code = get_current_exit_code env }

-- `if (ctx->ret > 0) { ev->child_pid = (__u32)ctx->ret; }`
abbrev pub write_child : SysExit → ProcessEvent → ProcessEvent
write_child ctx ev =
    if is_positive ctx.ret then record ev { child_pid = to_bits 32 ctx.ret } else ev

unfoldable pub on_sys_exit_clone : Env → SysExit → KernelState → KernelState
unfolding emit_process_event
on_sys_exit_clone env ctx = emit_process_event env process_clone (write_child ctx)

unfoldable pub on_sys_exit_clone3 : Env → SysExit → KernelState → KernelState
unfolding emit_process_event
on_sys_exit_clone3 env ctx = emit_process_event env process_clone3 (write_child ctx)

unfoldable pub on_sys_exit_vfork : Env → SysExit → KernelState → KernelState
unfolding emit_process_event
on_sys_exit_vfork env ctx = emit_process_event env process_vfork (write_child ctx)
