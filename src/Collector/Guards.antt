-- ===== src/Collector/Guards.antt =====
-- What the gates of the programs are after a startup that is not degraded.
use e_trace_gen_e_bpfevent_t.Base.{
  ℕ, Bool, true, false, not, ◌&&◌, ◌≡◌, ◌==◌, is_nonneg, List, codes, refl, ap, ◌∙◌, if_both, u32,
  arith,
}
use e_trace_gen_e_bpfevent_t.Schema.Kinds.{
  process_exec, process_fork, process_exit, process_clone, process_clone3, process_vfork,
  file_openat, file_unlinkat, file_renameat2, network_socket, network_socketpair, network_connect,
  network_bind, network_accept, network_accept4, network_listen, network_getsockname,
  network_getpeername, network_setsockopt, network_getsockopt, network_sendto, network_sendmsg,
  network_recvfrom, network_recvmsg, network_read, network_write, network_readv, network_writev,
  network_sendmmsg, network_recvmmsg, network_shutdown, network_close,
}
use e_trace_gen_e_bpfevent_t.Kernel.State.{KernelState}
use e_trace_gen_e_bpfevent_t.Kernel.Gate.{
  is_process_probe_enabled, is_file_probe_enabled, is_syscall_probe_enabled,
  is_network_probe_enabled,
}
use e_trace_gen_e_bpfevent_t.Kernel.Call.{Tracepoint}
use e_trace_gen_e_bpfevent_t.Kernel.Guard.{is_guarded}
use e_trace_gen_e_bpfevent_t.Registry.Entity.{is_empty}
use e_trace_gen_e_bpfevent_t.Config.Runtime.{RuntimeConfig}
use e_trace_gen_e_bpfevent_t.Collector.Toggles.{
  UpdateElem, IsUpdateElem, toggle, process_keys, network_keys,
}
use e_trace_gen_e_bpfevent_t.Collector.Switches.{
  contains, process_set, network_set, single_set, file_set,
}
use e_trace_gen_e_bpfevent_t.Collector.Startup.{
  CollectorStartupReport, MapFds, append_degrade_reason, require, effective_file_probes,
  apply_domains, apply_suppression, start_switches,
}

-- What the configuration says of a program: the switch of its domain, and its own for a file.
unfoldable pub is_configured : Tracepoint → RuntimeConfig → Bool
is_configured (Tracepoint.sched_exec _) cfg = cfg.domains.process
is_configured (Tracepoint.sched_fork _) cfg = cfg.domains.process
is_configured Tracepoint.sched_exit cfg = cfg.domains.process
is_configured (Tracepoint.exit_clone _) cfg = cfg.domains.process
is_configured (Tracepoint.exit_clone3 _) cfg = cfg.domains.process
is_configured (Tracepoint.exit_vfork _) cfg = cfg.domains.process
is_configured (Tracepoint.enter_openat _) cfg = cfg.domains.file && cfg.file_probes.openat
is_configured (Tracepoint.exit_openat _) cfg = cfg.domains.file && cfg.file_probes.openat
is_configured (Tracepoint.enter_unlinkat _) cfg = cfg.domains.file && cfg.file_probes.unlinkat
is_configured (Tracepoint.exit_unlinkat _) cfg = cfg.domains.file && cfg.file_probes.unlinkat
is_configured (Tracepoint.enter_renameat2 _) cfg = cfg.domains.file && cfg.file_probes.renameat2
is_configured (Tracepoint.exit_renameat2 _) cfg = cfg.domains.file && cfg.file_probes.renameat2
is_configured (Tracepoint.raw_enter _) cfg = cfg.domains.syscall
is_configured (Tracepoint.raw_exit _) cfg = cfg.domains.syscall
is_configured _ cfg = cfg.domains.network_socket

-- The entries of the four maps of switches, as the configuration has them.
pub record IsSwitched (cfg : RuntimeConfig) (s : KernelState) : Type 0 where
  pub process_set :
      (j : ℕ)
      → contains process_keys j ≡ true
      → s.process_probe_enabled j ≡ toggle cfg.domains.process
  pub syscall_set : s.syscall_probe_enabled 0 ≡ toggle cfg.domains.syscall
  pub file_set :
      (s.file_probe_enabled file_openat ≡ toggle (cfg.domains.file && cfg.file_probes.openat))
      × (s.file_probe_enabled file_unlinkat ≡ toggle (cfg.domains.file && cfg.file_probes.unlinkat))
      × (s.file_probe_enabled file_renameat2
          ≡ toggle (cfg.domains.file && cfg.file_probes.renameat2))
  pub network_set :
      (j : ℕ)
      → contains network_keys j ≡ true
      → s.network_probe_enabled j ≡ toggle cfg.domains.network_socket

switched : (value : ℕ) (b : Bool) → value ≡ toggle b → not (value == 0) ≡ b
switched value true e = ground arith
switched value false e = ground arith

module _ {cfg : RuntimeConfig} {s : KernelState} (w : IsSwitched cfg s) where
  pub guarded : (at : Tracepoint) → is_guarded at s ≡ is_configured at cfg
  unfolding is_configured contains is_process_probe_enabled is_file_probe_enabled
      is_syscall_probe_enabled is_network_probe_enabled
  guarded (Tracepoint.sched_exec _) = switched _ _ (w.process_set process_exec refl)
  guarded (Tracepoint.sched_fork _) = switched _ _ (w.process_set process_fork refl)
  guarded Tracepoint.sched_exit = switched _ _ (w.process_set process_exit refl)
  guarded (Tracepoint.exit_clone _) = switched _ _ (w.process_set process_clone refl)
  guarded (Tracepoint.exit_clone3 _) = switched _ _ (w.process_set process_clone3 refl)
  guarded (Tracepoint.exit_vfork _) = switched _ _ (w.process_set process_vfork refl)
  guarded (Tracepoint.enter_openat _) = switched _ _ (w.file_set.0)
  guarded (Tracepoint.exit_openat _) = switched _ _ (w.file_set.0)
  guarded (Tracepoint.enter_unlinkat _) = switched _ _ (w.file_set.1)
  guarded (Tracepoint.exit_unlinkat _) = switched _ _ (w.file_set.1)
  guarded (Tracepoint.enter_renameat2 _) = switched _ _ (w.file_set.2)
  guarded (Tracepoint.exit_renameat2 _) = switched _ _ (w.file_set.2)
  guarded (Tracepoint.raw_enter _) = switched _ _ (w.syscall_set)
  guarded (Tracepoint.raw_exit _) = switched _ _ (w.syscall_set)
  guarded (Tracepoint.enter_socket _) = switched _ _ (w.network_set network_socket refl)
  guarded (Tracepoint.exit_socket _) = switched _ _ (w.network_set network_socket refl)
  guarded (Tracepoint.enter_socketpair _) = switched _ _ (w.network_set network_socketpair refl)
  guarded (Tracepoint.exit_socketpair _) = switched _ _ (w.network_set network_socketpair refl)
  guarded (Tracepoint.enter_connect _) = switched _ _ (w.network_set network_connect refl)
  guarded (Tracepoint.exit_connect _) = switched _ _ (w.network_set network_connect refl)
  guarded (Tracepoint.enter_bind _) = switched _ _ (w.network_set network_bind refl)
  guarded (Tracepoint.exit_bind _) = switched _ _ (w.network_set network_bind refl)
  guarded (Tracepoint.enter_accept _) = switched _ _ (w.network_set network_accept refl)
  guarded (Tracepoint.exit_accept _) = switched _ _ (w.network_set network_accept refl)
  guarded (Tracepoint.enter_accept4 _) = switched _ _ (w.network_set network_accept4 refl)
  guarded (Tracepoint.exit_accept4 _) = switched _ _ (w.network_set network_accept4 refl)
  guarded (Tracepoint.enter_listen _) = switched _ _ (w.network_set network_listen refl)
  guarded (Tracepoint.exit_listen _) = switched _ _ (w.network_set network_listen refl)
  guarded (Tracepoint.enter_getsockname _) = switched _ _ (w.network_set network_getsockname refl)
  guarded (Tracepoint.exit_getsockname _) = switched _ _ (w.network_set network_getsockname refl)
  guarded (Tracepoint.enter_getpeername _) = switched _ _ (w.network_set network_getpeername refl)
  guarded (Tracepoint.exit_getpeername _) = switched _ _ (w.network_set network_getpeername refl)
  guarded (Tracepoint.enter_setsockopt _) = switched _ _ (w.network_set network_setsockopt refl)
  guarded (Tracepoint.exit_setsockopt _) = switched _ _ (w.network_set network_setsockopt refl)
  guarded (Tracepoint.enter_getsockopt _) = switched _ _ (w.network_set network_getsockopt refl)
  guarded (Tracepoint.exit_getsockopt _) = switched _ _ (w.network_set network_getsockopt refl)
  guarded (Tracepoint.enter_sendto _) = switched _ _ (w.network_set network_sendto refl)
  guarded (Tracepoint.exit_sendto _) = switched _ _ (w.network_set network_sendto refl)
  guarded (Tracepoint.enter_sendmsg _) = switched _ _ (w.network_set network_sendmsg refl)
  guarded (Tracepoint.exit_sendmsg _) = switched _ _ (w.network_set network_sendmsg refl)
  guarded (Tracepoint.enter_recvfrom _) = switched _ _ (w.network_set network_recvfrom refl)
  guarded (Tracepoint.exit_recvfrom _) = switched _ _ (w.network_set network_recvfrom refl)
  guarded (Tracepoint.enter_recvmsg _) = switched _ _ (w.network_set network_recvmsg refl)
  guarded (Tracepoint.exit_recvmsg _) = switched _ _ (w.network_set network_recvmsg refl)
  guarded (Tracepoint.enter_read _) = switched _ _ (w.network_set network_read refl)
  guarded (Tracepoint.exit_read _) = switched _ _ (w.network_set network_read refl)
  guarded (Tracepoint.enter_write _) = switched _ _ (w.network_set network_write refl)
  guarded (Tracepoint.exit_write _) = switched _ _ (w.network_set network_write refl)
  guarded (Tracepoint.enter_readv _) = switched _ _ (w.network_set network_readv refl)
  guarded (Tracepoint.exit_readv _) = switched _ _ (w.network_set network_readv refl)
  guarded (Tracepoint.enter_writev _) = switched _ _ (w.network_set network_writev refl)
  guarded (Tracepoint.exit_writev _) = switched _ _ (w.network_set network_writev refl)
  guarded (Tracepoint.enter_sendmmsg _) = switched _ _ (w.network_set network_sendmmsg refl)
  guarded (Tracepoint.exit_sendmmsg _) = switched _ _ (w.network_set network_sendmmsg refl)
  guarded (Tracepoint.enter_recvmmsg _) = switched _ _ (w.network_set network_recvmmsg refl)
  guarded (Tracepoint.exit_recvmmsg _) = switched _ _ (w.network_set network_recvmmsg refl)
  guarded (Tracepoint.enter_shutdown _) = switched _ _ (w.network_set network_shutdown refl)
  guarded (Tracepoint.exit_shutdown _) = switched _ _ (w.network_set network_shutdown refl)
  guarded (Tracepoint.enter_close _) = switched _ _ (w.network_set network_close refl)
  guarded (Tracepoint.exit_close _) = switched _ _ (w.network_set network_close refl)

require-kept :
    (ok : Bool) (message : List ℕ) (report : CollectorStartupReport)
    → is_empty message ≡ false
    → (require ok message report).degraded ≡ false
    → (ok ≡ true) × (report.degraded ≡ false)
unfolding require append_degrade_reason
require-kept true message report some_text kept = (refl, kept)
require-kept false message report some_text kept = ground arith

effective_file_probes_lem :
    (cfg : RuntimeConfig)
    → ((effective_file_probes cfg).openat ≡ (cfg.domains.file && cfg.file_probes.openat))
      × ((effective_file_probes cfg).unlinkat ≡ (cfg.domains.file && cfg.file_probes.unlinkat))
      × ((effective_file_probes cfg).renameat2 ≡ (cfg.domains.file && cfg.file_probes.renameat2))
unfolding effective_file_probes
effective_file_probes_lem cfg = (ground arith, ground arith, ground arith)

module _ (update : UpdateElem) (laws : IsUpdateElem update) (fds : MapFds)
    (cfg : RuntimeConfig) where
  apply_domains-IsSwitched :
      (s : KernelState) (report : CollectorStartupReport)
      → (apply_domains update fds cfg (s, report)).1.degraded ≡ false
      → IsSwitched cfg (apply_domains update fds cfg (s, report)).0 × (report.degraded ≡ false)
  unfolding apply_domains
  apply_domains-IsSwitched s report kept =
      let network = require-kept _ (codes "network probe toggle apply failed") _ refl kept in
      let file = require-kept _ (codes "file probe toggle apply failed") _ refl network.1 in
      let syscall = require-kept _ (codes "syscall probe toggle apply failed") _ refl file.1 in
      let process = require-kept _ (codes "process probe toggle apply failed") _ refl syscall.1 in
      let files =
        file_set update laws fds.file_toggle_fd (effective_file_probes cfg) s.file_probe_enabled
          file.0 in
      let chosen = effective_file_probes_lem cfg in
      (
        record {
          process_set =
              process_set update laws fds.process_toggle_fd cfg.domains.process
                s.process_probe_enabled process.0;
          syscall_set =
              single_set update laws fds.syscall_probe_enabled_fd cfg.domains.syscall
                s.syscall_probe_enabled syscall.0;
          file_set = (
            files.0 ∙ ap toggle chosen.0,
            files.1 ∙ ap toggle chosen.1,
            files.2 ∙ ap toggle chosen.2,
          );
          network_set =
              network_set update laws fds.network_probe_enabled_fd cfg.domains.network_socket
                s.network_probe_enabled network.0;
        },
        process.1,
      )

  apply_suppression-kept :
      (pid : ℕ) (s : KernelState) (report : CollectorStartupReport)
      → (apply_suppression update fds cfg pid (s, report)).1.degraded ≡ false
      → report.degraded ≡ false
  unfolding apply_suppression
  apply_suppression-kept pid s report =
      if_both
        (λ (r : KernelState × CollectorStartupReport).
          r.1.degraded ≡ false → report.degraded ≡ false)
        (is_nonneg fds.suppress_tgid_fd)
        (λ there kept. (require-kept _ (codes "suppress_tgid apply failed") report refl kept).1)
        λ missing kept. kept

  apply_suppression-IsSwitched :
      (pid : ℕ) (s : KernelState) (report : CollectorStartupReport)
      → is_nonneg fds.suppress_tgid_fd ≡ true
      → (apply_suppression update fds cfg pid (s, report)).1.degraded ≡ false
      → (IsSwitched cfg s → IsSwitched cfg (apply_suppression update fds cfg pid (s, report)).0)
        × ((apply_suppression update fds cfg pid (s, report)).0.suppress_tgid 0 ≡ u32 pid)
  unfolding apply_suppression
  apply_suppression-IsSwitched pid s report there =
      if_both
        (λ (r : KernelState × CollectorStartupReport).
          r.1.degraded ≡ false
          → (IsSwitched cfg s → IsSwitched cfg r.0) × (r.0.suppress_tgid 0 ≡ u32 pid))
        (is_nonneg fds.suppress_tgid_fd)
        (λ _ kept.
          let done = require-kept _ (codes "suppress_tgid apply failed") _ refl kept in
          (
            (λ w. record {
              process_set = w.process_set;
              syscall_set = w.syscall_set;
              file_set = w.file_set;
              network_set = w.network_set;
            }),
            laws fds.suppress_tgid_fd s.suppress_tgid 0 (u32 pid) done.0 0,
          ))
        λ missing kept. ground arith

  pub start_switches-IsSwitched :
      (pid : ℕ) (s : KernelState) (report : CollectorStartupReport)
      → (start_switches update fds cfg pid (s, report)).1.degraded ≡ false
      → IsSwitched cfg (start_switches update fds cfg pid (s, report)).0
        × ((start_switches update fds cfg pid (s, report)).0.suppress_tgid 0 ≡ u32 pid)
  unfolding start_switches
  start_switches-IsSwitched pid s report kept =
      let found =
        require (is_nonneg fds.suppress_tgid_fd)
          (codes "suppress_tgid map missing; self-event suppression in-kernel disabled") report in
      let applied = apply_domains update fds cfg (s, found) in
      let domains =
        apply_domains-IsSwitched s found (apply_suppression-kept pid applied.0 applied.1 kept) in
      let there =
        (require-kept (is_nonneg fds.suppress_tgid_fd)
          (codes "suppress_tgid map missing; self-event suppression in-kernel disabled") report refl
          domains.1).0 in
      let suppressed = apply_suppression-IsSwitched pid applied.0 applied.1 there kept in
      (suppressed.0 domains.0, suppressed.1)

  -- After a startup whose report is not degraded, the gate of every program is what the
  -- configuration says of its domain, and for a file of its own switch too, and the suppressed
  -- process is the collector.
  pub start_switches-is_configured :
      (pid : ℕ) (s : KernelState) (report : CollectorStartupReport)
      → (start_switches update fds cfg pid (s, report)).1.degraded ≡ false
      → ((at : Tracepoint)
          → is_guarded at (start_switches update fds cfg pid (s, report)).0 ≡ is_configured at cfg)
        × ((start_switches update fds cfg pid (s, report)).0.suppress_tgid 0 ≡ u32 pid)
  start_switches-is_configured pid s report kept =
      let started = start_switches-IsSwitched pid s report kept in (guarded started.0, started.1)
