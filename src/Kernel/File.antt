-- ===== src/Kernel/File.antt =====
-- bpf/event_logger_file.bpf.c, and the pairing of file enters and exits in
-- bpf/event_logger_common.bpf.h: an enter handler stores its record by task and kind, and the exit
-- handler finishes the stored record and submits it.
use e_trace_gen_e_bpfevent_t.Base.{
  ℕ, ℤ, negsuc, List, none, some, not, ◌||◌, ◌==◌, u32, signed32, s32, is_nonneg, set,
  if◌then◌else◌,
}
use e_trace_gen_e_bpfevent_t.Schema.{Event, FileEvent}
use e_trace_gen_e_bpfevent_t.Schema.Kinds.{file_openat, file_unlinkat, file_renameat2, path_len}
use e_trace_gen_e_bpfevent_t.Kernel.State.{
  KernelState, FileStateKey, MapHelpers, stat_inc, stat_file_state_collision,
  stat_file_state_save_fail, stat_file_state_miss,
}
use e_trace_gen_e_bpfevent_t.Kernel.Env.{Env, SysEnter, SysExit}
use e_trace_gen_e_bpfevent_t.Kernel.Gate.{is_event_allowed, is_file_probe_enabled}
use e_trace_gen_e_bpfevent_t.Kernel.Reserve.{reserve_file_event}
use e_trace_gen_e_bpfevent_t.Kernel.Process.{submit}

unfoldable pub make_file_key : Env → ℕ → FileStateKey
make_file_key env kind = record { pid_tgid = env.current_pid_tgid; kind = kind }

-- `copy_user_path`: no pointer or a failed read leaves the empty string.
unfoldable pub copy_user_path : Env → List ℕ → ℕ → List ℕ
copy_user_path env dst user_ptr =
    if user_ptr == 0
    then set dst 0 0
    else let (copied, dst') = env.probe_read_user_str user_ptr path_len dst in
      if is_nonneg copied then dst' else set dst' 0 0

-- `save_file_enter_state`; the scratch record is discarded on every path.
unfoldable pub save_file_enter_state :
    MapHelpers → Env → ℕ → FileEvent → KernelState → ℤ × KernelState
unfolding make_file_key
save_file_enter_state h env kind ev s = elim (s.file_enter_state (make_file_key env kind)) [
  | some existing ↦ (negsuc 0, stat_inc env.cpu stat_file_state_collision s)
  | none ↦
      let (ret, entries) = h.file_map.update_elem s.file_enter_state (make_file_key env kind) ev in
      let s' = record s { file_enter_state = entries } in
      (ret, if is_nonneg ret then s' else stat_inc env.cpu stat_file_state_save_fail s')
]

abbrev pub delete_file_entry : MapHelpers → Env → ℕ → KernelState → KernelState
delete_file_entry h env kind s = record s {
  file_enter_state = (h.file_map.delete_elem s.file_enter_state (make_file_key env kind)).1;
}

-- The stored record with the time and the result of the exit.
abbrev pub finish_file_event : Env → ℤ → FileEvent → FileEvent
finish_file_event env ret_code state = record state {
  hdr = record (state.hdr) { ts_ns = env.ktime_at_exit };
  ret = s32 ret_code;
}

-- `emit_file_exit_event`. It always returns 0, so only the state is given.
unfoldable pub emit_file_exit_event : MapHelpers → Env → ℕ → ℤ → KernelState → KernelState
unfolding make_file_key
emit_file_exit_event h env kind ret_code s = elim (s.file_enter_state (make_file_key env kind)) [
  | none ↦ stat_inc env.cpu stat_file_state_miss s
  | some state ↦
      let (slot, s') = reserve_file_event env kind s in
      elim slot [
        | none ↦ delete_file_entry h env kind s'
        | some _ ↦
            delete_file_entry h env kind
              (submit (Event.file (finish_file_event env ret_code state)) s')
      ]
]

-- The frame of the enter handlers: gates, reservation, the handler's own writes, the save.
unfoldable pub file_enter :
    MapHelpers → Env → ℕ → (FileEvent → FileEvent) → KernelState → KernelState
file_enter h env kind write s =
    if not (is_event_allowed env s) || not (is_file_probe_enabled s kind)
    then s
    else let (slot, s') = reserve_file_event env kind s in
      elim slot [ none ↦ s' | some ev ↦ (save_file_enter_state h env kind (write ev) s').1 ]

-- The frame of the exit handlers.
unfoldable pub file_exit : MapHelpers → Env → ℕ → SysExit → KernelState → KernelState
file_exit h env kind ctx s =
    if not (is_event_allowed env s) || not (is_file_probe_enabled s kind)
    then s
    else emit_file_exit_event h env kind ctx.ret s

-- What each enter handler writes into its record.
abbrev pub write_openat : Env → SysEnter → FileEvent → FileEvent
write_openat env ctx ev = record ev {
  dfd = signed32 (u32 ctx.args0);
  flags = signed32 (u32 ctx.args2);
  mode = signed32 (u32 ctx.args3);
  path_a = copy_user_path env ev.path_a ctx.args1;
}

abbrev pub write_unlinkat : Env → SysEnter → FileEvent → FileEvent
write_unlinkat env ctx ev = record ev {
  dfd = signed32 (u32 ctx.args0);
  flags = signed32 (u32 ctx.args2);
  path_a = copy_user_path env ev.path_a ctx.args1;
}

abbrev pub write_renameat2 : Env → SysEnter → FileEvent → FileEvent
write_renameat2 env ctx ev = record ev {
  dfd = signed32 (u32 ctx.args0);
  mode = signed32 (u32 ctx.args2);
  flags = signed32 (u32 ctx.args4);
  path_a = copy_user_path env ev.path_a ctx.args1;
  path_b = copy_user_path env ev.path_b ctx.args3;
}

module _ (h : MapHelpers) (env : Env) where
  unfoldable pub on_sys_enter_openat : SysEnter → KernelState → KernelState
  on_sys_enter_openat ctx = file_enter h env file_openat (write_openat env ctx)

  unfoldable pub on_sys_enter_unlinkat : SysEnter → KernelState → KernelState
  on_sys_enter_unlinkat ctx = file_enter h env file_unlinkat (write_unlinkat env ctx)

  unfoldable pub on_sys_enter_renameat2 : SysEnter → KernelState → KernelState
  on_sys_enter_renameat2 ctx = file_enter h env file_renameat2 (write_renameat2 env ctx)

  unfoldable pub on_sys_exit_openat : SysExit → KernelState → KernelState
  on_sys_exit_openat = file_exit h env file_openat

  unfoldable pub on_sys_exit_unlinkat : SysExit → KernelState → KernelState
  on_sys_exit_unlinkat = file_exit h env file_unlinkat

  unfoldable pub on_sys_exit_renameat2 : SysExit → KernelState → KernelState
  on_sys_exit_renameat2 = file_exit h env file_renameat2
