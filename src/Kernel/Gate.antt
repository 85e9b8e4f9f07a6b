-- ===== src/Kernel/Gate.antt =====
-- The gates of bpf/event_logger_common.bpf.h: probe toggles, the suppression of the collector's own
-- events, and the allowlists, which capture-first mode leaves open.
use e_trace_gen_e_bpfevent_t.Base.{
  ℕ, ℤ, Bool, true, false, not, ◌&&◌, ◌||◌, none, some, array_lookup, ◌==◌, u32, shr,
}
use e_trace_gen_e_bpfevent_t.Kernel.State.{KernelState}
use e_trace_gen_e_bpfevent_t.Kernel.Env.{Env}

unfoldable pub is_file_probe_enabled : KernelState → ℕ → Bool
is_file_probe_enabled s kind = elim (array_lookup 4 s.file_probe_enabled kind) [
  | none ↦ true
  | some enabled ↦ not (enabled == 0)
]

unfoldable pub is_process_probe_enabled : KernelState → ℕ → Bool
is_process_probe_enabled s kind = elim (array_lookup 8 s.process_probe_enabled kind) [
  | none ↦ true
  | some enabled ↦ not (enabled == 0)
]

unfoldable pub is_network_probe_enabled : KernelState → ℕ → Bool
is_network_probe_enabled s kind = elim (array_lookup 32 s.network_probe_enabled kind) [
  | none ↦ false
  | some enabled ↦ not (enabled == 0)
]

unfoldable pub is_syscall_probe_enabled : KernelState → Bool
is_syscall_probe_enabled s = elim (array_lookup 1 s.syscall_probe_enabled 0) [
  | none ↦ false
  | some enabled ↦ not (enabled == 0)
]

unfoldable pub is_syscall_allowed : ℤ → Bool
is_syscall_allowed nr = true

unfoldable pub is_network_port_allowed : ℕ → ℕ → Bool
is_network_port_allowed src_port dst_port = true

unfoldable pub is_current_pid_allowed : Bool
is_current_pid_allowed = true

unfoldable pub is_current_uid_allowed : Bool
is_current_uid_allowed = true

-- `(__u32)(pid_tgid >> 32)`
abbrev pub tgid_of : ℕ → ℕ
tgid_of pid_tgid = u32 (shr pid_tgid 32)

unfoldable pub is_not_suppressed_self : Env → KernelState → Bool
is_not_suppressed_self env s = elim (array_lookup 1 s.suppress_tgid 0) [
  | none ↦ true
  | some suppressed ↦ suppressed == 0 || not (tgid_of env.current_pid_tgid == suppressed)
]

unfoldable pub is_event_allowed : Env → KernelState → Bool
unfolding is_not_suppressed_self is_current_pid_allowed is_current_uid_allowed
is_event_allowed env s =
    is_not_suppressed_self env s && is_current_pid_allowed && is_current_uid_allowed
