-- ===== src/Kernel/Syscall.antt =====
-- bpf/event_logger_syscall.bpf.c, and the pairing of raw syscall enters and exits in
-- bpf/event_logger_common.bpf.h, by task and syscall number.
use e_trace_gen_e_bpfevent_t.Base.{
  ℤ, negsuc, none, some, not, ◌||◌, signed64, s32, is_nonneg, if◌then◌else◌,
}
use e_trace_gen_e_bpfevent_t.Schema.{Event, SyscallEvent}
use e_trace_gen_e_bpfevent_t.Kernel.State.{
  KernelState, SyscallStateKey, MapHelpers, stat_inc, stat_syscall_state_collision,
  stat_syscall_state_save_fail, stat_syscall_state_miss,
}
use e_trace_gen_e_bpfevent_t.Kernel.Env.{Env, SysEnter, SysExit}
use e_trace_gen_e_bpfevent_t.Kernel.Gate.{
  is_event_allowed, is_syscall_probe_enabled, is_syscall_allowed,
}
use e_trace_gen_e_bpfevent_t.Kernel.Reserve.{reserve_syscall_event}
use e_trace_gen_e_bpfevent_t.Kernel.Process.{submit}

unfoldable pub make_syscall_key : Env → ℤ → SyscallStateKey
make_syscall_key env nr = record { pid_tgid = env.current_pid_tgid; syscall_nr = nr }

unfoldable pub save_syscall_enter_state :
    MapHelpers → Env → ℤ → SyscallEvent → KernelState → ℤ × KernelState
unfolding make_syscall_key
save_syscall_enter_state h env nr ev s = elim (s.syscall_enter_state (make_syscall_key env nr)) [
  | some existing ↦ (negsuc 0, stat_inc env.cpu stat_syscall_state_collision s)
  | none ↦
      let (ret, entries) =
        h.syscall_map.update_elem s.syscall_enter_state (make_syscall_key env nr) ev in
      let s' = record s { syscall_enter_state = entries } in
      (ret, if is_nonneg ret then s' else stat_inc env.cpu stat_syscall_state_save_fail s')
]

abbrev pub delete_syscall_entry : MapHelpers → Env → ℤ → KernelState → KernelState
delete_syscall_entry h env nr s = record s {
  syscall_enter_state =
      (h.syscall_map.delete_elem s.syscall_enter_state (make_syscall_key env nr)).1;
}

-- The stored record with the time and the result of the exit.
abbrev pub finish_syscall_event : Env → ℤ → SyscallEvent → SyscallEvent
finish_syscall_event env ret_code state = record state {
  hdr = record (state.hdr) { ts_ns = env.ktime_at_exit };
  is_enter = 0;
  ret = ret_code;
}

-- `emit_syscall_exit_event`. It always returns 0, so only the state is given.
unfoldable pub emit_syscall_exit_event : MapHelpers → Env → ℤ → ℤ → KernelState → KernelState
unfolding make_syscall_key
emit_syscall_exit_event h env nr ret_code s =
    elim (s.syscall_enter_state (make_syscall_key env nr)) [
      | none ↦ stat_inc env.cpu stat_syscall_state_miss s
      | some state ↦
          let (slot, s') = reserve_syscall_event env s in
          elim slot [
            | none ↦ delete_syscall_entry h env nr s'
            | some _ ↦
                delete_syscall_entry h env nr
                  (submit (Event.syscall (finish_syscall_event env ret_code state)) s')
          ]
    ]

-- What the enter handler writes into its record.
abbrev pub write_sys_enter : ℤ → SysEnter → SyscallEvent → SyscallEvent
write_sys_enter nr ctx ev = record ev {
  is_enter = 1;
  syscall_nr = nr;
  arg0 = signed64 ctx.args0;
  arg1 = signed64 ctx.args1;
  arg2 = signed64 ctx.args2;
}

module _ (h : MapHelpers) (env : Env) where
  unfoldable pub on_raw_sys_enter : SysEnter → KernelState → KernelState
  on_raw_sys_enter ctx s =
      let nr = s32 ctx.id in
      if not (is_event_allowed env s) || not (is_syscall_probe_enabled s)
      then s
      else if not (is_syscall_allowed nr)
      then s
      else let (slot, s') = reserve_syscall_event env s in
        elim slot [
          | none ↦ s'
          | some ev ↦ (save_syscall_enter_state h env nr (write_sys_enter nr ctx ev) s').1
        ]

  unfoldable pub on_raw_sys_exit : SysExit → KernelState → KernelState
  on_raw_sys_exit ctx s =
      let nr = s32 ctx.id in
      if not (is_event_allowed env s) || not (is_syscall_probe_enabled s)
      then s
      else if not (is_syscall_allowed nr)
      then s
      else emit_syscall_exit_event h env nr ctx.ret s
