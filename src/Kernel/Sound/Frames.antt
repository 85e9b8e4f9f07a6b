-- ===== src/Kernel/Sound/Frames.antt =====
-- The effect of the frames that the process, file and raw syscall handlers share.
use e_trace_gen_e_bpfevent_t.Base.{not, ◌||◌, s32, ℕ, ℤ, ◌≡◌, refl, true, arith}
use e_trace_gen_e_bpfevent_t.Schema.{Event, ProcessEvent, FileEvent, SyscallEvent}
use e_trace_gen_e_bpfevent_t.Kernel.State.{KernelState, MapHelpers, IsMapHelpers}
use e_trace_gen_e_bpfevent_t.Kernel.Env.{Env, SysEnter, SysExit}
use e_trace_gen_e_bpfevent_t.Kernel.Gate.{
  is_syscall_probe_enabled, is_event_allowed, is_syscall_allowed,
}
use e_trace_gen_e_bpfevent_t.Kernel.Reserve.{
  init_process_event, init_file_event, init_syscall_event,
}
use e_trace_gen_e_bpfevent_t.Kernel.Process.{submit, emit_process_event}
use e_trace_gen_e_bpfevent_t.Kernel.File.{
  make_file_key, save_file_enter_state, delete_file_entry, emit_file_exit_event, finish_file_event,
  file_enter, file_exit,
}
use e_trace_gen_e_bpfevent_t.Kernel.Syscall.{
  make_syscall_key, save_syscall_enter_state, delete_syscall_entry, emit_syscall_exit_event,
  finish_syscall_event, write_sys_enter, on_raw_sys_enter, on_raw_sys_exit,
}
use e_trace_gen_e_bpfevent_t.Kernel.Sound.{IsSound, Effect, IsFileEntry, IsSyscallEntry}
use e_trace_gen_e_bpfevent_t.Kernel.Sound.Effects.{
  Quiet, Quiet-refl, Quiet-Effect, stat_inc-Quiet, submit-Effect, settle-Quiet, gate_cases,
  lookup_cases, reserve_cases,
}
use e_trace_gen_e_bpfevent_t.Kernel.Sound.Stores.{
  delete_file_entry-Effect, delete_syscall_entry-Effect, file_saved-Quiet, syscall_saved-Quiet,
}

module _ (env : Env) (kind : ℕ) (write : ProcessEvent → ProcessEvent)
    (keeps_hdr : (ev : ProcessEvent) → (write ev).hdr ≡ ev.hdr) where
  pub emit_process_event-Effect :
      (s : KernelState) → IsSound s → Effect env s (emit_process_event env kind write s)
  unfolding emit_process_event init_process_event
  emit_process_event-Effect s i = gate_cases _ i λ opened.
      reserve_cases (Effect env s) env s (init_process_event env kind) (λ t. t)
        (λ ev. submit (Event.process (write ev))) env.reserved_process
        (Quiet-Effect (stat_inc-Quiet _ _ (Quiet-refl i)))
        λ slot.
          submit-Effect _ (rw (keeps_hdr _) (refl, refl)) (rw (keeps_hdr _) (refl, refl))
            (ground arith) (Quiet-refl i)

module _ {h : MapHelpers} (laws : IsMapHelpers h) (env : Env) where
  save_file_enter_state-Quiet :
      (kind : ℕ) (ev : FileEvent) (s : KernelState)
      → IsSound s
      → IsFileEntry (make_file_key env kind) ev
      → Quiet env s (save_file_enter_state h env kind ev s).1
  unfolding save_file_enter_state
  save_file_enter_state-Quiet kind ev s i stored =
      lookup_cases (λ (r : ℤ × KernelState). Quiet env s r.1)
        (s.file_enter_state (make_file_key env kind)) _
        (settle-Quiet _ _ _ (file_saved-Quiet laws env i kind ev stored))
        λ existing e. stat_inc-Quiet _ _ (Quiet-refl i)

  pub file_enter-Effect :
      (kind : ℕ) (write : FileEvent → FileEvent) (s : KernelState)
      → ((ev : FileEvent)
          → ((write ev).hdr ≡ ev.hdr) × ((write ev).kind ≡ ev.kind) × ((write ev).ret ≡ ev.ret))
      → IsSound s
      → Effect env s (file_enter h env kind write s)
  unfolding file_enter init_file_event make_file_key
  file_enter-Effect kind write s keeps i = gate_cases _ i λ opened.
      reserve_cases (Effect env s) env s (init_file_event env kind) (λ t. t)
        (λ ev t. (save_file_enter_state h env kind (write ev) t).1) env.reserved_file
        (Quiet-Effect (stat_inc-Quiet _ _ (Quiet-refl i)))
        λ slot. Quiet-Effect (
          save_file_enter_state-Quiet kind _ s i (
            let (hdr, same_kind, same_ret) = keeps (init_file_event env kind slot) in
            rw hdr ((refl, refl), (refl, refl), same_kind, same_ret)))

  emit_file_exit_event-Effect :
      (kind : ℕ) (ret_code : ℤ) (s : KernelState)
      → is_event_allowed env s ≡ true
      → IsSound s
      → Effect env s (emit_file_exit_event h env kind ret_code s)
  unfolding emit_file_exit_event
  emit_file_exit_event-Effect kind ret_code s allowed i =
      lookup_cases (Effect env s) (s.file_enter_state (make_file_key env kind)) _
        (Quiet-Effect (stat_inc-Quiet _ _ (Quiet-refl i)))
        λ state e.
          let stored = i.file_entries _ state e in
          reserve_cases (Effect env s) env s (init_file_event env kind)
            (delete_file_entry h env kind)
            (λ _ t.
              delete_file_entry h env kind
                (submit (Event.file (finish_file_event env ret_code state)) t))
            env.reserved_file
            (delete_file_entry-Effect laws env (Quiet-Effect (stat_inc-Quiet _ _ (Quiet-refl i)))
              kind)
            λ slot.
              delete_file_entry-Effect laws env
                (submit-Effect _ stored.0 stored.1 allowed (Quiet-refl i)) kind

  pub file_exit-Effect :
      (kind : ℕ) (ctx : SysExit) (s : KernelState)
      → IsSound s
      → Effect env s (file_exit h env kind ctx s)
  unfolding file_exit
  file_exit-Effect kind ctx s i =
      gate_cases _ i λ opened. emit_file_exit_event-Effect kind ctx.ret s (ground arith) i

  save_syscall_enter_state-Quiet :
      (nr : ℤ) (ev : SyscallEvent) (s : KernelState)
      → IsSound s
      → IsSyscallEntry (make_syscall_key env nr) ev
      → Quiet env s (save_syscall_enter_state h env nr ev s).1
  unfolding save_syscall_enter_state
  save_syscall_enter_state-Quiet nr ev s i stored =
      lookup_cases (λ (r : ℤ × KernelState). Quiet env s r.1)
        (s.syscall_enter_state (make_syscall_key env nr)) _
        (settle-Quiet _ _ _ (syscall_saved-Quiet laws env i nr ev stored))
        λ existing e. stat_inc-Quiet _ _ (Quiet-refl i)

  pub on_raw_sys_enter-Effect :
      (ctx : SysEnter) (s : KernelState) → IsSound s → Effect env s (on_raw_sys_enter h env ctx s)
  unfolding on_raw_sys_enter init_syscall_event make_syscall_key is_syscall_allowed
  on_raw_sys_enter-Effect ctx s i =
      gate_cases (not (is_event_allowed env s) || not (is_syscall_probe_enabled s)) i λ opened.
        reserve_cases (Effect env s) env s (λ _. init_syscall_event env) (λ t. t)
          (λ ev t.
            (save_syscall_enter_state h env (s32 ctx.id) (write_sys_enter (s32 ctx.id) ctx ev) t).1)
          env.reserved_syscall (Quiet-Effect (stat_inc-Quiet _ _ (Quiet-refl i)))
          λ slot. Quiet-Effect (
            save_syscall_enter_state-Quiet (s32 ctx.id) _ s i
              ((refl, refl), (refl, refl), refl, refl))

  emit_syscall_exit_event-Effect :
      (nr ret_code : ℤ) (s : KernelState)
      → is_event_allowed env s ≡ true
      → IsSound s
      → Effect env s (emit_syscall_exit_event h env nr ret_code s)
  unfolding emit_syscall_exit_event
  emit_syscall_exit_event-Effect nr ret_code s allowed i =
      lookup_cases (Effect env s) (s.syscall_enter_state (make_syscall_key env nr)) _
        (Quiet-Effect (stat_inc-Quiet _ _ (Quiet-refl i)))
        λ state e.
          let stored = i.syscall_entries _ state e in
          reserve_cases (Effect env s) env s (λ _. init_syscall_event env)
            (delete_syscall_entry h env nr)
            (λ _ t.
              delete_syscall_entry h env nr
                (submit (Event.syscall (finish_syscall_event env ret_code state)) t))
            env.reserved_syscall
            (delete_syscall_entry-Effect laws env (Quiet-Effect (stat_inc-Quiet _ _ (Quiet-refl i)))
              nr)
            λ slot.
              delete_syscall_entry-Effect laws env
                (submit-Effect _ stored.0 stored.1 allowed (Quiet-refl i)) nr

  pub on_raw_sys_exit-Effect :
      (ctx : SysExit) (s : KernelState) → IsSound s → Effect env s (on_raw_sys_exit h env ctx s)
  unfolding on_raw_sys_exit is_syscall_allowed
  on_raw_sys_exit-Effect ctx s i =
      gate_cases (not (is_event_allowed env s) || not (is_syscall_probe_enabled s)) i
        λ opened. emit_syscall_exit_event-Effect _ ctx.ret s (ground arith) i
