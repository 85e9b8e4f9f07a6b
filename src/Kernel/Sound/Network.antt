-- ===== src/Kernel/Sound/Network.antt =====
-- The effect of the frames that the network handlers share.
use e_trace_gen_e_bpfevent_t.Base.{
  ℕ, ℤ, ◌≡◌, refl, Bool, true, false, not, ◌||◌, arith, if◌then◌else◌,
}
use e_trace_gen_e_bpfevent_t.Schema.{Event, NetworkEvent}
use e_trace_gen_e_bpfevent_t.Kernel.State.{KernelState, NetworkStateValue, MapHelpers, IsMapHelpers}
use e_trace_gen_e_bpfevent_t.Kernel.Env.{Env, SysExit}
use e_trace_gen_e_bpfevent_t.Kernel.Gate.{
  is_event_allowed, is_network_probe_enabled, is_network_port_allowed,
}
use e_trace_gen_e_bpfevent_t.Kernel.Reserve.{init_network_event}
use e_trace_gen_e_bpfevent_t.Kernel.Process.{submit}
use e_trace_gen_e_bpfevent_t.Kernel.Network.Pairing.{
  make_network_key, save_network_enter_state, delete_network_entry, finish_fds, track_fds,
  SocketFds, with_socket_fds, finish_remote, finish_bytes, finish_flow, finish_local,
  finish_opt_len, finish_option, finish_network_event, emit_network_exit_event, is_socket_fd,
}
use e_trace_gen_e_bpfevent_t.Kernel.Network.Enter.{network_save, network_enter, socket_enter}
use e_trace_gen_e_bpfevent_t.Kernel.Network.Exit.{network_exit}
use e_trace_gen_e_bpfevent_t.Kernel.Sound.{IsSound, Effect, IsNetworkEntry}
use e_trace_gen_e_bpfevent_t.Kernel.Sound.Effects.{
  Quiet, Quiet-refl, Quiet-Effect, stat_inc-Quiet, submit-Effect, settle-Quiet, gate_cases,
  lookup_cases, reserve_cases, SameStored-Quiet,
}
use e_trace_gen_e_bpfevent_t.Kernel.Sound.Stores.{delete_network_entry-Effect, network_saved-Quiet}

module _ (env : Env) (kind : ℕ) (ret_code : ℤ) (state : NetworkStateValue) where
  finish_fds-hdr : (out : NetworkEvent) → (finish_fds env kind ret_code state out).hdr ≡ out.hdr
  unfolding finish_fds
  finish_fds-hdr out = ground arith

  finish_remote-hdr :
      (out : NetworkEvent) → (finish_remote env kind ret_code state out).hdr ≡ out.hdr
  unfolding finish_remote
  finish_remote-hdr out = ground arith

  finish_bytes-hdr : (out : NetworkEvent) → (finish_bytes env kind ret_code state out).hdr ≡ out.hdr
  unfolding finish_bytes
  finish_bytes-hdr out = ground arith

  finish_flow-hdr : (out : NetworkEvent) → (finish_flow env kind ret_code state out).hdr ≡ out.hdr
  unfolding finish_flow
  finish_flow-hdr out = ground arith

  finish_local-hdr : (out : NetworkEvent) → (finish_local env kind ret_code state out).hdr ≡ out.hdr
  unfolding finish_local
  finish_local-hdr out = ground arith

  finish_option-hdr :
      (out : NetworkEvent) → (finish_option env kind ret_code state out).hdr ≡ out.hdr
  unfolding finish_option finish_opt_len
  finish_option-hdr out = ground arith

  -- Of the stored header only the time changes.
  pub finish_network_event-hdr :
      (finish_network_event env kind ret_code state).hdr
      ≡ record (state.ev.hdr) { ts_ns = env.ktime_at_exit }
  unfolding finish_network_event
  finish_network_event-hdr = simp (
    finish_option-hdr, finish_local-hdr, finish_flow-hdr, finish_bytes-hdr, finish_remote-hdr,
    finish_fds-hdr,
  )

-- Tracking descriptors submits nothing and leaves the stored records alone.
with_socket_fds-Quiet :
    {env : Env} {s t : KernelState} (fds : SocketFds)
    → Quiet env s t
    → Quiet env s (with_socket_fds fds t)
with_socket_fds-Quiet fds q = SameStored-Quiet (refl, refl, refl) refl refl q

module _ {h : MapHelpers} (laws : IsMapHelpers h) (env : Env) where
  save_network_enter_state-Quiet :
      (kind : ℕ) (state : NetworkStateValue) (s : KernelState)
      → IsSound s
      → IsNetworkEntry (make_network_key env kind) state
      → Quiet env s (save_network_enter_state h env kind state s).1
  unfolding save_network_enter_state
  save_network_enter_state-Quiet kind state s i stored =
      lookup_cases (λ (r : ℤ × KernelState). Quiet env s r.1)
        (s.network_enter_state (make_network_key env kind)) _
        (settle-Quiet _ _ _ (network_saved-Quiet laws env i kind state stored))
        λ existing e. stat_inc-Quiet _ _ (Quiet-refl i)

  -- A save of a state that keeps the record's header and kind.
  network_save-Effect :
      (kind : ℕ) (build : NetworkEvent → NetworkStateValue) (s : KernelState)
      → ((ev : NetworkEvent) → ((build ev).ev.hdr ≡ ev.hdr) × ((build ev).ev.kind ≡ ev.kind))
      → IsSound s
      → Effect env s (network_save h env kind build s)
  unfolding network_save init_network_event make_network_key
  network_save-Effect kind build s keeps i =
      reserve_cases (Effect env s) env s (init_network_event env kind) (λ t. t)
        (λ ev t.
          if env.scratch_available then (save_network_enter_state h env kind (build ev) t).1 else t)
        env.reserved_network (Quiet-Effect (stat_inc-Quiet _ _ (Quiet-refl i)))
        λ slot.
          let (hdr, same_kind) = keeps (init_network_event env kind slot) in
          scratch_cases env.scratch_available i (
            save_network_enter_state-Quiet kind _ s i
              (rw hdr ((refl, refl), (refl, refl), same_kind)))
    where
      scratch_cases :
          {s t : KernelState} (b : Bool)
          → IsSound s
          → Quiet env s t
          → Effect env s (if b then t else s)
      scratch_cases true i q = Quiet-Effect q
      scratch_cases false i q = Quiet-Effect (Quiet-refl i)

  emit_network_exit_event-Effect :
      (kind : ℕ) (ret_code : ℤ) (s : KernelState)
      → is_event_allowed env s ≡ true
      → IsSound s
      → Effect env s (emit_network_exit_event h env kind ret_code s)
  unfolding emit_network_exit_event is_network_port_allowed make_network_key
  emit_network_exit_event-Effect kind ret_code s allowed i =
      lookup_cases (Effect env s) (s.network_enter_state (make_network_key env kind)) _
        (Quiet-Effect (stat_inc-Quiet _ _ (Quiet-refl i)))
        λ state e.
          let stored = i.network_entries _ state e in
          let out = finish_network_event env kind ret_code state in
          let same_hdr = finish_network_event-hdr env kind ret_code state in
          reserve_cases (Effect env s) env s (init_network_event env kind)
            (delete_network_entry h env kind)
            (λ _ t. delete_network_entry h env kind (
              submit (Event.network out)
                (with_socket_fds (track_fds env kind ret_code state h out t.socket_fd_state) t)))
            env.reserved_network
            (delete_network_entry-Effect laws env (Quiet-Effect (stat_inc-Quiet _ _ (Quiet-refl i)))
              kind)
            λ slot.
              delete_network_entry-Effect laws env
                (submit-Effect (Event.network out) (rw same_hdr stored.0) (rw same_hdr stored.1)
                  allowed (with_socket_fds-Quiet _ (Quiet-refl i)))
                kind

  pub network_exit-Effect :
      (kind : ℕ) (ctx : SysExit) (s : KernelState)
      → IsSound s
      → Effect env s (network_exit h env kind ctx s)
  unfolding network_exit
  network_exit-Effect kind ctx s i =
      gate_cases _ i λ opened. emit_network_exit_event-Effect kind ctx.ret s (ground arith) i

  pub network_enter-Effect :
      (kind : ℕ) (build : NetworkEvent → NetworkStateValue) (s : KernelState)
      → ((ev : NetworkEvent) → ((build ev).ev.hdr ≡ ev.hdr) × ((build ev).ev.kind ≡ ev.kind))
      → IsSound s
      → Effect env s (network_enter h env kind build s)
  unfolding network_enter
  network_enter-Effect kind build s keeps i =
      gate_cases _ i λ opened. network_save-Effect kind build s keeps i

  pub socket_enter-Effect :
      (kind : ℕ) (fd : ℤ) (build : NetworkEvent → NetworkStateValue) (s : KernelState)
      → ((ev : NetworkEvent) → ((build ev).ev.hdr ≡ ev.hdr) × ((build ev).ev.kind ≡ ev.kind))
      → IsSound s
      → Effect env s (socket_enter h env kind fd build s)
  unfolding socket_enter
  socket_enter-Effect kind fd build s keeps i =
      gate_cases (not (is_event_allowed env s) || not (is_network_probe_enabled s kind)) i λ opened.
        gate_cases (not (is_socket_fd env fd s)) i
          λ socket. network_save-Effect kind build s keeps i
