-- ===== src/Kernel/Pairs/File.antt =====
-- File enters and exits as pairs.
use e_trace_gen_e_bpfevent_t.Kernel.Sound.Frames.{file_enter-Effect}
use e_trace_gen_e_bpfevent_t.Kernel.Process.{submit}
use e_trace_gen_e_bpfevent_t.Base.{
  ℤ, ℕ, ◌≡◌, ◌⊎◌, ◌∙◌, inl, inr, ap, List, [], ◌∷◌, ◌++◌, none, some, true, arith, is_nonneg,
}
use e_trace_gen_e_bpfevent_t.Schema.{Event, FileEvent}
use e_trace_gen_e_bpfevent_t.Kernel.State.{
  KernelState, MapHelpers, IsMapHelpers, stat_inc, stat_file_state_miss, stat_file_state_collision,
}
use e_trace_gen_e_bpfevent_t.Kernel.Env.{Env, SysExit}
use e_trace_gen_e_bpfevent_t.Kernel.Gate.{is_event_allowed, is_file_probe_enabled}
use e_trace_gen_e_bpfevent_t.Kernel.Reserve.{init_file_event}
use e_trace_gen_e_bpfevent_t.Kernel.File.{
  make_file_key, file_enter, file_exit, save_file_enter_state, emit_file_exit_event,
  finish_file_event, delete_file_entry,
}
use e_trace_gen_e_bpfevent_t.Kernel.Call.{Call, run_all}
use e_trace_gen_e_bpfevent_t.Kernel.Sound.{IsSound}
use e_trace_gen_e_bpfevent_t.Kernel.Pairs.{kept_or_gone, OfOthers, run_all-spared}

-- Both gates of a file handler are open.
abbrev pub IsFileOpen : Env → ℕ → KernelState → Type 0
IsFileOpen env kind s = (is_event_allowed env s ≡ true) × (is_file_probe_enabled s kind ≡ true)

module _ (h : MapHelpers) (env : Env) (kind : ℕ) where
  open_enter :
      (write : FileEvent → FileEvent) (slot : FileEvent) (s : KernelState)
      → IsFileOpen env kind s
      → env.reserved_file ≡ some slot
      → file_enter h env kind write s
        ≡ (save_file_enter_state h env kind (write (init_file_event env kind slot)) s).1
  unfolding file_enter
  open_enter write slot s (allowed, enabled) reserved = simp (allowed, enabled, reserved)

  open_exit :
      (ctx : SysExit) (s : KernelState)
      → IsFileOpen env kind s
      → file_exit h env kind ctx s ≡ emit_file_exit_event h env kind ctx.ret s
  unfolding file_exit
  open_exit ctx s (allowed, enabled) = rw (allowed, enabled)

  -- A save over an entry: the first record stays.
  save_collides :
      (ev old : FileEvent) (s : KernelState)
      → s.file_enter_state (make_file_key env kind) ≡ some old
      → (save_file_enter_state h env kind ev s).1 ≡ stat_inc env.cpu stat_file_state_collision s
  unfolding save_file_enter_state make_file_key
  save_collides ev old s found = ground arith

  save_stores :
      (laws : IsMapHelpers h) (ev : FileEvent) (s : KernelState)
      → s.file_enter_state (make_file_key env kind) ≡ none
      → is_nonneg (h.file_map.update_elem s.file_enter_state (make_file_key env kind) ev).0 ≡ true
      → (save_file_enter_state h env kind ev s).1.file_enter_state (make_file_key env kind)
        ≡ some ev
  unfolding save_file_enter_state make_file_key
  save_stores laws ev s free saved =
      ground (arith, laws.file_laws.update_stores s.file_enter_state _ ev saved)

  exit_submits :
      (laws : IsMapHelpers h) (ret_code : ℤ) (state slot : FileEvent) (s : KernelState)
      → s.file_enter_state (make_file_key env kind) ≡ some state
      → env.reserved_file ≡ some slot
      → emit_file_exit_event h env kind ret_code s
        ≡ delete_file_entry h env kind
            (submit (Event.file (finish_file_event env ret_code state)) s)
  unfolding emit_file_exit_event make_file_key
  exit_submits laws ret_code state slot s found reserved = ground arith

  exit_misses :
      (ret_code : ℤ) (s : KernelState)
      → s.file_enter_state (make_file_key env kind) ≡ none
      → emit_file_exit_event h env kind ret_code s ≡ stat_inc env.cpu stat_file_state_miss s
  unfolding emit_file_exit_event make_file_key
  exit_misses ret_code s missing = ground arith

  -- A file enter handler with open gates whose task already has a record of the kind keeps that
  -- record, counts a collision, and changes nothing else.
  pub file_enter-collision :
      (write : FileEvent → FileEvent) (slot old : FileEvent) (s : KernelState)
      → IsFileOpen env kind s
      → env.reserved_file ≡ some slot
      → s.file_enter_state (make_file_key env kind) ≡ some old
      → file_enter h env kind write s ≡ stat_inc env.cpu stat_file_state_collision s
  file_enter-collision write slot old s gates reserved found =
      open_enter write slot s gates reserved ∙ save_collides _ old s found

  -- After a file exit handler with open gates its task has no record of the kind: whether one was
  -- there, and whether the ring buffer had room for it.
  pub file_exit-clears :
      (laws : IsMapHelpers h) (ctx : SysExit) (s : KernelState)
      → IsFileOpen env kind s
      → (file_exit h env kind ctx s).file_enter_state (make_file_key env kind) ≡ none
  unfolding emit_file_exit_event stat_inc
  file_exit-clears laws ctx s gates =
      rw (open_exit ctx s gates)
        (ground (arith, laws.file_laws.delete_removes s.file_enter_state (make_file_key env kind)))

-- An exit handler that finds the saved record submits exactly its finished form; one that finds none
-- only counts a miss.
abbrev pub IsFileSettled : MapHelpers → Env → ℕ → SysExit → FileEvent → KernelState → Type 0
IsFileSettled h exit kind ctx saved s =
    let s' = file_exit h exit kind ctx s in
    ((s.file_enter_state (make_file_key exit kind) ≡ some saved)
      × (s'.events ≡ s.events ++ Event.file (finish_file_event exit ctx.ret saved) ∷ []))
    ⊎ ((s.file_enter_state (make_file_key exit kind) ≡ none)
        × (s' ≡ stat_inc exit.cpu stat_file_state_miss s))

module _ {h : MapHelpers} (laws : IsMapHelpers h) (enter exit : Env) (kind : ℕ)
    (write : FileEvent → FileEvent) where
  same_key :
      exit.current_pid_tgid ≡ enter.current_pid_tgid
      → make_file_key exit kind ≡ make_file_key enter kind
  unfolding make_file_key
  same_key same = ap (λ p. record { pid_tgid = p; kind = kind }) same

  -- What an exit handler makes of a record that is still there or was evicted.
  settle_exit :
      (ctx : SysExit) (saved slot : FileEvent) (s : KernelState)
      → IsFileOpen exit kind s
      → exit.reserved_file ≡ some slot
      → (s.file_enter_state (make_file_key exit kind) ≡ some saved)
        ⊎ (s.file_enter_state (make_file_key exit kind) ≡ none)
      → IsFileSettled h exit kind ctx saved s
  settle_exit ctx saved slot s gates reserved (inl found) = inl (
    found,
    ap (λ t. t.events)
        (open_exit h exit kind ctx s gates
          ∙ exit_submits h exit kind laws ctx.ret saved slot s found reserved),
  )
  settle_exit ctx saved slot s gates reserved (inr gone) =
      inr (gone, open_exit h exit kind ctx s gates ∙ exit_misses h exit kind ctx.ret s gone)

  -- An enter handler of a task saves its record; then other tasks make any calls; then the same
  -- task's exit handler runs. If both handlers pass their gates and get a slot, the task had no
  -- record of the kind, and the save succeeds, then the record is in the map after the enter. If it
  -- is still there when the exit handler runs, that submits exactly the saved record with the time
  -- and the 32-bit result of the exit; otherwise the record is gone from the map, and the exit
  -- handler only counts a miss.
  pub file_pair :
      ((ev : FileEvent)
        → ((write ev).hdr ≡ ev.hdr) × ((write ev).kind ≡ ev.kind) × ((write ev).ret ≡ ev.ret))
      → (ctx : SysExit) (slot exit_slot : FileEvent) (cs : List Call) (s : KernelState) → IsSound s
      → IsFileOpen enter kind s
      → enter.reserved_file ≡ some slot
      → s.file_enter_state (make_file_key enter kind) ≡ none
      → is_nonneg
          (h.file_map.update_elem s.file_enter_state
            (make_file_key enter kind)
            (write (init_file_event enter kind slot))).0
        ≡ true
      → exit.current_pid_tgid ≡ enter.current_pid_tgid
      → OfOthers enter.current_pid_tgid cs
      → IsFileOpen exit kind (run_all h cs (file_enter h enter kind write s))
      → exit.reserved_file ≡ some exit_slot
      → ((file_enter h enter kind write s).file_enter_state (make_file_key enter kind)
          ≡ some (write (init_file_event enter kind slot)))
        × IsFileSettled h exit kind ctx
            (write (init_file_event enter kind slot))
            (run_all h cs (file_enter h enter kind write s))
  unfolding make_file_key
  file_pair keeps ctx slot exit_slot cs s i gates reserved free saved same others exit_gates
        exit_reserved =
      (
        stored,
        settle_exit ctx (write (init_file_event enter kind slot)) exit_slot
            (run_all h cs (file_enter h enter kind write s)) exit_gates exit_reserved
            (rw (same_key same) (
              kept_or_gone stored (
                run_all-spared laws (λ k. k.pid_tgid) (λ t. t.file_enter_state)
                  (λ c t eff. eff.spares.files) (make_file_key enter kind) cs _ entered others))),
      )
    where
      entered : IsSound (file_enter h enter kind write s)
      entered = (file_enter-Effect laws enter kind write s keeps i).sound

      stored :
          (file_enter h enter kind write s).file_enter_state (make_file_key enter kind)
          ≡ some (write (init_file_event enter kind slot))
      stored =
          rw (open_enter h enter kind write slot s gates reserved)
            (save_stores h enter kind laws _ s free saved)
