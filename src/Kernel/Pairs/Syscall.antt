-- ===== src/Kernel/Pairs/Syscall.antt =====
-- Raw syscall enters and exits as pairs, by task and syscall number.
use e_trace_gen_e_bpfevent_t.Base.{
  ℤ, ◌≡◌, ◌⊎◌, ◌∙◌, inl, inr, ap, List, [], ◌∷◌, ◌++◌, none, some, true, arith, is_nonneg, s32,
}
use e_trace_gen_e_bpfevent_t.Schema.{Event, SyscallEvent}
use e_trace_gen_e_bpfevent_t.Kernel.State.{
  KernelState, MapHelpers, IsMapHelpers, stat_inc, stat_syscall_state_miss,
  stat_syscall_state_collision,
}
use e_trace_gen_e_bpfevent_t.Kernel.Env.{Env, SysEnter, SysExit}
use e_trace_gen_e_bpfevent_t.Kernel.Gate.{
  is_event_allowed, is_syscall_probe_enabled, is_syscall_allowed,
}
use e_trace_gen_e_bpfevent_t.Kernel.Reserve.{init_syscall_event}
use e_trace_gen_e_bpfevent_t.Kernel.Process.{submit}
use e_trace_gen_e_bpfevent_t.Kernel.Syscall.{
  make_syscall_key, save_syscall_enter_state, emit_syscall_exit_event, finish_syscall_event,
  delete_syscall_entry, write_sys_enter, on_raw_sys_enter, on_raw_sys_exit,
}
use e_trace_gen_e_bpfevent_t.Kernel.Call.{Call, run_all}
use e_trace_gen_e_bpfevent_t.Kernel.Sound.{IsSound}
use e_trace_gen_e_bpfevent_t.Kernel.Sound.Frames.{on_raw_sys_enter-Effect}
use e_trace_gen_e_bpfevent_t.Kernel.Pairs.{OfOthers, run_all-spared, kept_or_gone}

-- Both gates of the raw syscall handlers are open.
abbrev pub IsSyscallOpen : Env → KernelState → Type 0
IsSyscallOpen env s = (is_event_allowed env s ≡ true) × (is_syscall_probe_enabled s ≡ true)

-- What the enter handler saves.
abbrev pub saved_at : Env → SysEnter → SyscallEvent
saved_at env ctx = write_sys_enter (s32 ctx.id) ctx (init_syscall_event env)

module _ (h : MapHelpers) (env : Env) where
  open_enter :
      (ctx : SysEnter) (slot : SyscallEvent) (s : KernelState)
      → IsSyscallOpen env s
      → env.reserved_syscall ≡ some slot
      → on_raw_sys_enter h env ctx s
        ≡ (save_syscall_enter_state h env (s32 ctx.id) (saved_at env ctx) s).1
  unfolding on_raw_sys_enter is_syscall_allowed
  open_enter ctx slot s (allowed, enabled) reserved = simp (allowed, enabled, reserved)

  open_exit :
      (ctx : SysExit) (s : KernelState)
      → IsSyscallOpen env s
      → on_raw_sys_exit h env ctx s ≡ emit_syscall_exit_event h env (s32 ctx.id) ctx.ret s
  unfolding on_raw_sys_exit is_syscall_allowed
  open_exit ctx s (allowed, enabled) = simp (allowed, enabled)

  save_collides :
      (nr : ℤ) (ev old : SyscallEvent) (s : KernelState)
      → s.syscall_enter_state (make_syscall_key env nr) ≡ some old
      → (save_syscall_enter_state h env nr ev s).1 ≡ stat_inc env.cpu stat_syscall_state_collision s
  unfolding save_syscall_enter_state make_syscall_key
  save_collides nr ev old s found = ground arith

  save_stores :
      (laws : IsMapHelpers h) (nr : ℤ) (ev : SyscallEvent) (s : KernelState)
      → s.syscall_enter_state (make_syscall_key env nr) ≡ none
      → is_nonneg (h.syscall_map.update_elem s.syscall_enter_state (make_syscall_key env nr) ev).0
        ≡ true
      → (save_syscall_enter_state h env nr ev s).1.syscall_enter_state (make_syscall_key env nr)
        ≡ some ev
  unfolding save_syscall_enter_state make_syscall_key
  save_stores laws nr ev s free saved =
      ground (arith, laws.syscall_laws.update_stores s.syscall_enter_state _ ev saved)

  exit_submits :
      (nr ret_code : ℤ) (state slot : SyscallEvent) (s : KernelState)
      → s.syscall_enter_state (make_syscall_key env nr) ≡ some state
      → env.reserved_syscall ≡ some slot
      → emit_syscall_exit_event h env nr ret_code s
        ≡ delete_syscall_entry h env nr
            (submit (Event.syscall (finish_syscall_event env ret_code state)) s)
  unfolding emit_syscall_exit_event make_syscall_key
  exit_submits nr ret_code state slot s found reserved = ground arith

  exit_misses :
      (nr ret_code : ℤ) (s : KernelState)
      → s.syscall_enter_state (make_syscall_key env nr) ≡ none
      → emit_syscall_exit_event h env nr ret_code s ≡ stat_inc env.cpu stat_syscall_state_miss s
  unfolding emit_syscall_exit_event make_syscall_key
  exit_misses nr ret_code s missing = ground arith

  -- After a raw syscall exit handler with open gates its task has no record of the syscall: whether
  -- one was there, and whether the ring buffer had room for it.
  pub on_raw_sys_exit-clears :
      (laws : IsMapHelpers h) (ctx : SysExit) (s : KernelState)
      → IsSyscallOpen env s
      → (on_raw_sys_exit h env ctx s).syscall_enter_state (make_syscall_key env (s32 ctx.id)) ≡ none
  unfolding emit_syscall_exit_event stat_inc
  on_raw_sys_exit-clears laws ctx s gates = rw (open_exit ctx s gates) (
      ground (
        arith,
        laws.syscall_laws.delete_removes s.syscall_enter_state (make_syscall_key env (s32 ctx.id)),
      ))

-- An exit handler that finds the saved record submits exactly its finished form; one that finds none
-- only counts a miss.
abbrev pub IsSyscallSettled : MapHelpers → Env → SysExit → SyscallEvent → KernelState → Type 0
IsSyscallSettled h exit ctx saved s =
    let s' = on_raw_sys_exit h exit ctx s in
    ((s.syscall_enter_state (make_syscall_key exit (s32 ctx.id)) ≡ some saved)
      × (s'.events ≡ s.events ++ Event.syscall (finish_syscall_event exit ctx.ret saved) ∷ []))
    ⊎ ((s.syscall_enter_state (make_syscall_key exit (s32 ctx.id)) ≡ none)
        × (s' ≡ stat_inc exit.cpu stat_syscall_state_miss s))

module _ {h : MapHelpers} (laws : IsMapHelpers h) (enter exit : Env) (ctx : SysEnter)
    (exit_ctx : SysExit) where
  same_key :
      exit.current_pid_tgid ≡ enter.current_pid_tgid
      → s32 exit_ctx.id ≡ s32 ctx.id
      → make_syscall_key exit (s32 exit_ctx.id) ≡ make_syscall_key enter (s32 ctx.id)
  unfolding make_syscall_key
  same_key same same_nr = cc

  settle_exit :
      (saved slot : SyscallEvent) (s : KernelState)
      → IsSyscallOpen exit s
      → exit.reserved_syscall ≡ some slot
      → (s.syscall_enter_state (make_syscall_key exit (s32 exit_ctx.id)) ≡ some saved)
        ⊎ (s.syscall_enter_state (make_syscall_key exit (s32 exit_ctx.id)) ≡ none)
      → IsSyscallSettled h exit exit_ctx saved s
  settle_exit saved slot s gates reserved (inl found) = inl (
    found,
    ap (λ t. t.events)
        (open_exit h exit exit_ctx s gates
          ∙ exit_submits h exit (s32 exit_ctx.id) exit_ctx.ret saved slot s found reserved),
  )
  settle_exit saved slot s gates reserved (inr gone) = inr (
    gone,
    open_exit h exit exit_ctx s gates ∙ exit_misses h exit (s32 exit_ctx.id) exit_ctx.ret s gone,
  )

  -- The raw syscall enter handler of a task saves its record; then other tasks make any calls; then
  -- the same task's exit handler runs for the same syscall number. If both pass their gates and get
  -- a slot, the task had no record of the number, and the save succeeds, then the record is in the
  -- map after the enter. If it is still there when the exit handler runs, that submits exactly the
  -- saved record with the time and the result of the exit, marked as an exit; otherwise the record
  -- is gone from the map, and the exit handler only counts a miss.
  pub syscall_pair :
      (slot exit_slot : SyscallEvent) (cs : List Call) (s : KernelState)
      → IsSound s
      → IsSyscallOpen enter s
      → enter.reserved_syscall ≡ some slot
      → s.syscall_enter_state (make_syscall_key enter (s32 ctx.id)) ≡ none
      → is_nonneg
          (h.syscall_map.update_elem s.syscall_enter_state
            (make_syscall_key enter (s32 ctx.id))
            (saved_at enter ctx)).0
        ≡ true
      → exit.current_pid_tgid ≡ enter.current_pid_tgid
      → s32 exit_ctx.id ≡ s32 ctx.id
      → OfOthers enter.current_pid_tgid cs
      → IsSyscallOpen exit (run_all h cs (on_raw_sys_enter h enter ctx s))
      → exit.reserved_syscall ≡ some exit_slot
      → ((on_raw_sys_enter h enter ctx s).syscall_enter_state (make_syscall_key enter (s32 ctx.id))
          ≡ some (saved_at enter ctx))
        × IsSyscallSettled h exit exit_ctx
            (saved_at enter ctx)
            (run_all h cs (on_raw_sys_enter h enter ctx s))
  unfolding make_syscall_key
  syscall_pair slot exit_slot cs s i gates reserved free saved same same_nr others exit_gates
        exit_reserved =
      (
        stored,
        settle_exit (saved_at enter ctx) exit_slot (run_all h cs (on_raw_sys_enter h enter ctx s))
            exit_gates exit_reserved
            (rw (same_key same same_nr) (
              kept_or_gone stored (
                run_all-spared laws (λ k. k.pid_tgid) (λ t. t.syscall_enter_state)
                  (λ c t eff. eff.spares.syscalls) (make_syscall_key enter (s32 ctx.id)) cs _
                  (on_raw_sys_enter-Effect laws enter ctx s i).sound others))),
      )
    where
      stored :
          (on_raw_sys_enter h enter ctx s).syscall_enter_state (make_syscall_key enter (s32 ctx.id))
          ≡ some (saved_at enter ctx)
      stored =
          rw (open_enter h enter ctx slot s gates reserved)
            (save_stores h enter laws (s32 ctx.id) _ s free saved)
