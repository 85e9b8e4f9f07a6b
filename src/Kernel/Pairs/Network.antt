-- ===== src/Kernel/Pairs/Network.antt =====
-- Network enters and exits as pairs.
use e_trace_gen_e_bpfevent_t.Kernel.Sound.Network.{network_enter-Effect}
use e_trace_gen_e_bpfevent_t.Kernel.Process.{submit}
use e_trace_gen_e_bpfevent_t.Base.{
  ℤ, ℕ, ◌≡◌, ◌⊎◌, ◌∙◌, inl, inr, ap, List, [], ◌∷◌, ◌++◌, none, some, true, arith, is_nonneg,
  Option,
}
use e_trace_gen_e_bpfevent_t.Schema.{Event, NetworkEvent}
use e_trace_gen_e_bpfevent_t.Kernel.State.{
  NetworkStateValue, KernelState, MapHelpers, IsMapHelpers, stat_inc, stat_network_state_miss,
  stat_network_state_collision,
}
use e_trace_gen_e_bpfevent_t.Kernel.Env.{Env, SysExit}
use e_trace_gen_e_bpfevent_t.Kernel.Gate.{
  is_network_port_allowed, is_event_allowed, is_network_probe_enabled,
}
use e_trace_gen_e_bpfevent_t.Kernel.Reserve.{count_reserve, init_network_event}
use e_trace_gen_e_bpfevent_t.Kernel.Network.Pairing.{
  make_network_key, save_network_enter_state, emit_network_exit_event, finish_network_event,
  delete_network_entry, track_fds, with_socket_fds,
}
use e_trace_gen_e_bpfevent_t.Kernel.Network.Enter.{network_save, network_enter}
use e_trace_gen_e_bpfevent_t.Kernel.Network.Exit.{network_exit}
use e_trace_gen_e_bpfevent_t.Kernel.Call.{Call, run_all}
use e_trace_gen_e_bpfevent_t.Kernel.Sound.{IsSound}
use e_trace_gen_e_bpfevent_t.Kernel.Pairs.{kept_or_gone, OfOthers, run_all-spared}

-- Both gates of a network handler are open.
abbrev pub IsNetworkOpen : Env → ℕ → KernelState → Type 0
IsNetworkOpen env kind s =
    (is_event_allowed env s ≡ true) × (is_network_probe_enabled s kind ≡ true)

-- A lookup that finds its entry, and a reservation that finds a slot.
found_with_slot :
    {V A B R : Type 0} (env : Env) (s : KernelState) (init : A → B) (missed : R)
    (full : V → KernelState → R) (go : V → B → KernelState → R) (found : Option V) (slot : Option A)
    {v : V} {a : A}
    → found ≡ some v
    → slot ≡ some a
    → elim found as (λ _. R) [
      | none ↦ missed
      | some x ↦ elim (elim slot as (λ _. Option B) [ none ↦ none | some b ↦ some (init b) ]) [
        | none ↦ full x (count_reserve env slot s)
        | some b ↦ go x b (count_reserve env slot s)
      ]
    ]
      ≡ go v (init a) s
found_with_slot env s init missed full go none slot e f = cc
found_with_slot env s init missed full go (some x) none e f = cc
found_with_slot env s init missed full go (some x) (some b) e f = cc

-- The finished record submitted, and its descriptors tracked.
abbrev submit_tracked : MapHelpers → Env → ℕ → ℤ → NetworkStateValue → KernelState → KernelState
submit_tracked h env kind ret_code state s =
    let out = finish_network_event env kind ret_code state in
    submit (Event.network out)
      (with_socket_fds (track_fds env kind ret_code state h out s.socket_fd_state) s)

module _ (h : MapHelpers) (env : Env) (kind : ℕ) where
  open_enter :
      (write : NetworkEvent → NetworkStateValue) (slot : NetworkEvent) (s : KernelState)
      → IsNetworkOpen env kind s
      → env.reserved_network ≡ some slot
      → env.scratch_available ≡ true
      → network_enter h env kind write s
        ≡ (save_network_enter_state h env kind (write (init_network_event env kind slot)) s).1
  unfolding network_enter network_save
  open_enter write slot s (allowed, enabled) reserved scratch =
      simp (allowed, enabled, reserved, scratch)

  open_exit :
      (ctx : SysExit) (s : KernelState)
      → IsNetworkOpen env kind s
      → network_exit h env kind ctx s ≡ emit_network_exit_event h env kind ctx.ret s
  unfolding network_exit
  open_exit ctx s (allowed, enabled) = rw (allowed, enabled)

  -- A save over an entry: the first record stays.
  save_collides :
      (ev old : NetworkStateValue) (s : KernelState)
      → s.network_enter_state (make_network_key env kind) ≡ some old
      → (save_network_enter_state h env kind ev s).1
        ≡ stat_inc env.cpu stat_network_state_collision s
  unfolding save_network_enter_state make_network_key
  save_collides ev old s found = ground arith

  save_stores :
      (laws : IsMapHelpers h) (ev : NetworkStateValue) (s : KernelState)
      → s.network_enter_state (make_network_key env kind) ≡ none
      → is_nonneg (h.network_map.update_elem s.network_enter_state (make_network_key env kind) ev).0
        ≡ true
      → (save_network_enter_state h env kind ev s).1.network_enter_state (make_network_key env kind)
        ≡ some ev
  unfolding save_network_enter_state make_network_key
  save_stores laws ev s free saved =
      ground (arith, laws.network_laws.update_stores s.network_enter_state _ ev saved)

  exit_submits :
      (laws : IsMapHelpers h) (ret_code : ℤ) (state : NetworkStateValue) (slot : NetworkEvent)
      (s : KernelState)
      → s.network_enter_state (make_network_key env kind) ≡ some state
      → env.reserved_network ≡ some slot
      → emit_network_exit_event h env kind ret_code s
        ≡ delete_network_entry h env kind (submit_tracked h env kind ret_code state s)
  unfolding emit_network_exit_event make_network_key is_network_port_allowed
  exit_submits laws ret_code state slot s found reserved =
      found_with_slot env s (init_network_event env kind) _ (λ _. delete_network_entry h env kind)
        (λ v _ t. delete_network_entry h env kind (submit_tracked h env kind ret_code v t))
        (s.network_enter_state (make_network_key env kind)) env.reserved_network found reserved

  -- The descriptors after an open exit handler that finds its record and gets a slot.
  pub exit_tracks :
      (laws : IsMapHelpers h) (ctx : SysExit) (saved : NetworkStateValue) (slot : NetworkEvent)
      (s : KernelState)
      → IsNetworkOpen env kind s
      → env.reserved_network ≡ some slot
      → s.network_enter_state (make_network_key env kind) ≡ some saved
      → (network_exit h env kind ctx s).socket_fd_state
        ≡ track_fds env kind ctx.ret saved h
            (finish_network_event env kind ctx.ret saved)
            s.socket_fd_state
  exit_tracks laws ctx saved slot s gates reserved found =
      ap (λ t. t.socket_fd_state)
        (open_exit ctx s gates ∙ exit_submits laws ctx.ret saved slot s found reserved)

  exit_misses :
      (ret_code : ℤ) (s : KernelState)
      → s.network_enter_state (make_network_key env kind) ≡ none
      → emit_network_exit_event h env kind ret_code s ≡ stat_inc env.cpu stat_network_state_miss s
  unfolding emit_network_exit_event make_network_key
  exit_misses ret_code s missing = ground arith

  -- A network enter handler with open gates and a scratch slot whose task already has a record of
  -- the kind keeps that record, counts a collision, and changes nothing else.
  pub network_enter-collision :
      (write : NetworkEvent → NetworkStateValue) (slot : NetworkEvent) (old : NetworkStateValue)
      (s : KernelState)
      → IsNetworkOpen env kind s
      → env.reserved_network ≡ some slot
      → env.scratch_available ≡ true
      → s.network_enter_state (make_network_key env kind) ≡ some old
      → network_enter h env kind write s ≡ stat_inc env.cpu stat_network_state_collision s
  network_enter-collision write slot old s gates reserved scratch found =
      open_enter write slot s gates reserved scratch ∙ save_collides _ old s found

  -- After a network exit handler with open gates its task has no record of the kind: whether one
  -- was there, and whether the ring buffer had room for it.
  pub network_exit-clears :
      (laws : IsMapHelpers h) (ctx : SysExit) (s : KernelState)
      → IsNetworkOpen env kind s
      → (network_exit h env kind ctx s).network_enter_state (make_network_key env kind) ≡ none
  unfolding emit_network_exit_event stat_inc
  network_exit-clears laws ctx s gates = rw (open_exit ctx s gates) (
      ground
        (arith, laws.network_laws.delete_removes s.network_enter_state (make_network_key env kind)))

-- An exit handler that finds the saved record submits exactly its finished form, and updates the
-- socket descriptors by it; one that finds none only counts a miss.
abbrev pub IsNetworkSettled :
    MapHelpers → Env → ℕ → SysExit → NetworkStateValue → KernelState → Type 0
IsNetworkSettled h exit kind ctx saved s =
    let s' = network_exit h exit kind ctx s in
    let out = finish_network_event exit kind ctx.ret saved in
    ((s.network_enter_state (make_network_key exit kind) ≡ some saved)
      × (s'.events ≡ s.events ++ Event.network out ∷ [])
      × (s'.socket_fd_state ≡ track_fds exit kind ctx.ret saved h out s.socket_fd_state))
    ⊎ ((s.network_enter_state (make_network_key exit kind) ≡ none)
        × (s' ≡ stat_inc exit.cpu stat_network_state_miss s))

module _ {h : MapHelpers} (laws : IsMapHelpers h) (enter exit : Env) (kind : ℕ)
    (write : NetworkEvent → NetworkStateValue) where
  same_key :
      exit.current_pid_tgid ≡ enter.current_pid_tgid
      → make_network_key exit kind ≡ make_network_key enter kind
  unfolding make_network_key
  same_key same = ap (λ p. record { pid_tgid = p; kind = kind }) same

  -- What an exit handler makes of a record that is still there or was evicted.
  settle_exit :
      (ctx : SysExit) (saved : NetworkStateValue) (slot : NetworkEvent) (s : KernelState)
      → IsNetworkOpen exit kind s
      → exit.reserved_network ≡ some slot
      → (s.network_enter_state (make_network_key exit kind) ≡ some saved)
        ⊎ (s.network_enter_state (make_network_key exit kind) ≡ none)
      → IsNetworkSettled h exit kind ctx saved s
  settle_exit ctx saved slot s gates reserved (inl found) = inl (
      let e =
        open_exit h exit kind ctx s gates
        ∙ exit_submits h exit kind laws ctx.ret saved slot s found reserved in
      (found, ap (λ t. t.events) e, ap (λ t. t.socket_fd_state) e))
  settle_exit ctx saved slot s gates reserved (inr gone) =
      inr (gone, open_exit h exit kind ctx s gates ∙ exit_misses h exit kind ctx.ret s gone)

  -- An enter handler of a task saves its state; then other tasks make any calls; then the same
  -- task's exit handler runs. If both handlers pass their gates and get a slot, the enter handler
  -- has its scratch slot, the task had no record of the kind, and the save succeeds, then the state is
  -- in the map after the enter. If it is still there when the exit handler runs, that submits
  -- exactly the finished form of the saved record and updates the tracked socket descriptors by it;
  -- otherwise the state is gone from the map, and the exit handler only counts a miss.
  pub network_pair :
      ((ev : NetworkEvent) → ((write ev).ev.hdr ≡ ev.hdr) × ((write ev).ev.kind ≡ ev.kind))
      → (ctx : SysExit) (slot exit_slot : NetworkEvent) (cs : List Call) (s : KernelState)
      → IsSound s
      → IsNetworkOpen enter kind s
      → enter.reserved_network ≡ some slot
      → enter.scratch_available ≡ true
      → s.network_enter_state (make_network_key enter kind) ≡ none
      → is_nonneg
          (h.network_map.update_elem s.network_enter_state
            (make_network_key enter kind)
            (write (init_network_event enter kind slot))).0
        ≡ true
      → exit.current_pid_tgid ≡ enter.current_pid_tgid
      → OfOthers enter.current_pid_tgid cs
      → IsNetworkOpen exit kind (run_all h cs (network_enter h enter kind write s))
      → exit.reserved_network ≡ some exit_slot
      → ((network_enter h enter kind write s).network_enter_state (make_network_key enter kind)
          ≡ some (write (init_network_event enter kind slot)))
        × IsNetworkSettled h exit kind ctx
            (write (init_network_event enter kind slot))
            (run_all h cs (network_enter h enter kind write s))
  unfolding make_network_key
  network_pair keeps ctx slot exit_slot cs s i gates reserved scratch free saved same others
        exit_gates exit_reserved =
      (
        stored,
        settle_exit ctx (write (init_network_event enter kind slot)) exit_slot
            (run_all h cs (network_enter h enter kind write s)) exit_gates exit_reserved
            (rw (same_key same) (
              kept_or_gone stored (
                run_all-spared laws (λ k. k.pid_tgid) (λ t. t.network_enter_state)
                  (λ c t eff. eff.spares.networks) (make_network_key enter kind) cs _ entered
                  others))),
      )
    where
      entered : IsSound (network_enter h enter kind write s)
      entered = (network_enter-Effect laws enter kind write s keeps i).sound

      stored :
          (network_enter h enter kind write s).network_enter_state (make_network_key enter kind)
          ≡ some (write (init_network_event enter kind slot))
      stored =
          rw (open_enter h enter kind write slot s gates reserved scratch)
            (save_stores h enter kind laws _ s free saved)
