-- ===== src/Kernel/Sound.antt =====
-- What holds of every state that the programs reach, and what one call does.
pub mod Effects
pub mod Stores
pub mod Frames
pub mod Network
pub mod Dispatch
pub mod History
use e_trace_gen_e_bpfevent_t.Base.{
  ℕ, pos, ◌≡◌, ◌⊎◌, [], ◌∷◌, ◌++◌, true, u32, Stored, Contents, none, ◌≢◌,
}
use e_trace_gen_e_bpfevent_t.Schema.{
  EventHeader, Event, FileEvent, SyscallEvent, header, sizeof_process_event, sizeof_file_event,
  sizeof_syscall_event, sizeof_network_event,
}
use e_trace_gen_e_bpfevent_t.Schema.Kinds.{
  event_type_process, event_type_file, event_type_syscall, event_type_network,
}
use e_trace_gen_e_bpfevent_t.Kernel.State.{
  KernelState, FileStateKey, SyscallStateKey, NetworkStateKey, NetworkStateValue,
}
use e_trace_gen_e_bpfevent_t.Kernel.Env.{Env}
use e_trace_gen_e_bpfevent_t.Kernel.Gate.{tgid_of, is_event_allowed}

-- The type tag and the size of a record are those of its payload.
abbrev pub IsTagged : Event → Type 0
IsTagged (Event.process ev) =
    (ev.hdr.type ≡ event_type_process) × (ev.hdr.size ≡ sizeof_process_event)
IsTagged (Event.file ev) = (ev.hdr.type ≡ event_type_file) × (ev.hdr.size ≡ sizeof_file_event)
IsTagged (Event.syscall ev) =
    (ev.hdr.type ≡ event_type_syscall) × (ev.hdr.size ≡ sizeof_syscall_event)
IsTagged (Event.network ev) =
    (ev.hdr.type ≡ event_type_network) × (ev.hdr.size ≡ sizeof_network_event)

-- A header names the task of a `pid_tgid`.
abbrev pub IsOwned : ℕ → EventHeader → Type 0
IsOwned pid_tgid hdr = (hdr.pid ≡ u32 pid_tgid) × (hdr.tgid ≡ tgid_of pid_tgid)

-- A stored record belongs to the task and the kind of its key.
abbrev pub IsFileEntry : FileStateKey → FileEvent → Type 0
IsFileEntry k ev =
    IsTagged (Event.file ev) × IsOwned k.pid_tgid ev.hdr × (ev.kind ≡ k.kind) × (ev.ret ≡ pos 0)

abbrev pub IsSyscallEntry : SyscallStateKey → SyscallEvent → Type 0
IsSyscallEntry k ev =
    IsTagged (Event.syscall ev)
    × IsOwned k.pid_tgid ev.hdr
    × (ev.syscall_nr ≡ k.syscall_nr)
    × (ev.is_enter ≡ 1)

abbrev pub IsNetworkEntry : NetworkStateKey → NetworkStateValue → Type 0
IsNetworkEntry k state =
    IsTagged (Event.network (state.ev)) × IsOwned k.pid_tgid state.ev.hdr × (state.ev.kind ≡ k.kind)

pub record IsSound (s : KernelState) : Type 0 where
  pub file_entries : Stored IsFileEntry s.file_enter_state
  pub syscall_entries : Stored IsSyscallEntry s.syscall_enter_state
  pub network_entries : Stored IsNetworkEntry s.network_enter_state

-- A call submits nothing, or one tagged record of its own task, which passed the gates.
abbrev pub Emits : Env → KernelState → KernelState → Type 0
Emits env s s' =
    (s'.events ≡ s.events)
    ⊎ ((ev : Event) × (s'.events ≡ s.events ++ ev ∷ [])
        × IsTagged ev
        × IsOwned env.current_pid_tgid (header ev)
        × (is_event_allowed env s ≡ true))

-- What other tasks stored stays as it is, or is evicted.
abbrev pub SparedBy : {K V : Type 0} → ℕ → (K → ℕ) → Contents K V → Contents K V → Type 0
SparedBy {K} pid_tgid owner c c' = (k : K) → owner k ≢ pid_tgid → (c' k ≡ c k) ⊎ (c' k ≡ none)

pub record Spares (env : Env) (s s' : KernelState) : Type 0 where
  pub files : SparedBy env.current_pid_tgid (λ k. k.pid_tgid) s.file_enter_state s'.file_enter_state
  pub syscalls :
      SparedBy env.current_pid_tgid (λ k. k.pid_tgid) s.syscall_enter_state s'.syscall_enter_state
  pub networks :
      SparedBy env.current_pid_tgid (λ k. k.pid_tgid) s.network_enter_state s'.network_enter_state

-- The maps that only user space writes.
abbrev pub gates : KernelState → (ℕ → ℕ) × (ℕ → ℕ) × (ℕ → ℕ) × (ℕ → ℕ) × (ℕ → ℕ)
gates s = (
  s.suppress_tgid, s.file_probe_enabled, s.process_probe_enabled, s.syscall_probe_enabled,
  s.network_probe_enabled,
)

pub record Effect (env : Env) (s s' : KernelState) : Type 0 where
  pub sound : IsSound s'
  pub emits : Emits env s s'
  pub spares : Spares env s s'
  pub gates_kept : gates s' ≡ gates s
