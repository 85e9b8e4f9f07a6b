-- ===== src/Collector/Startup.antt =====
-- src/collector/collector_libbpf.cpp: the part of `Start` that turns the configuration into the
-- switches of the domains and the suppressed process, and what the startup report keeps of it.
use e_trace_gen_e_bpfevent_t.Base.{
  ℕ, ℤ, Bool, true, false, is_nonneg, if◌then◌else◌, List, ◌++◌, codes, u32,
}
use e_trace_gen_e_bpfevent_t.Registry.Entity.{is_empty}
use e_trace_gen_e_bpfevent_t.Kernel.State.{KernelState}
use e_trace_gen_e_bpfevent_t.Config.Runtime.{FileProbeConfig, RuntimeConfig}
use e_trace_gen_e_bpfevent_t.Collector.Toggles.{
  UpdateElem, is_zero, apply_file_probe_config, apply_process_probe_config,
  apply_network_probe_config, set_allowlist_enabled,
}

-- The fields that the switches have a part in.
pub record CollectorStartupReport : Type 0 where
  pub file_probe_toggles_applied : Bool
  pub network_probe_toggles_applied : Bool
  pub degraded : Bool
  pub degrade_reason : List ℕ

-- The descriptors of the maps, below 0 where the object has no such map.
pub record MapFds : Type 0 where
  pub process_toggle_fd : ℤ
  pub file_toggle_fd : ℤ
  pub syscall_probe_enabled_fd : ℤ
  pub network_probe_enabled_fd : ℤ
  pub suppress_tgid_fd : ℤ

unfoldable pub append_degrade_reason : CollectorStartupReport → List ℕ → CollectorStartupReport
append_degrade_reason report message = if is_empty message then report else record report {
  degrade_reason =
      (if is_empty report.degrade_reason
        then report.degrade_reason
        else report.degrade_reason ++ codes "; ")
      ++ message;
  degraded = true;
}

-- `if (!ok) AppendDegradeReason(&startup_report_, message)`
unfoldable pub require : Bool → List ℕ → CollectorStartupReport → CollectorStartupReport
unfolding append_degrade_reason
require ok message report = if ok then report else append_degrade_reason report message

-- `effective_file_probes`
unfoldable pub effective_file_probes : RuntimeConfig → FileProbeConfig
effective_file_probes cfg =
    if cfg.domains.file
    then cfg.file_probes
    else record { openat = false; unlinkat = false; renameat2 = false }

module _ (update : UpdateElem) (fds : MapFds) (cfg : RuntimeConfig) where
  unfoldable pub apply_domains :
      KernelState × CollectorStartupReport → KernelState × CollectorStartupReport
  unfolding require effective_file_probes apply_file_probe_config apply_process_probe_config
      apply_network_probe_config set_allowlist_enabled
  apply_domains (s, report) =
      let process =
        apply_process_probe_config update fds.process_toggle_fd cfg.domains.process
          s.process_probe_enabled in
      let syscall =
        set_allowlist_enabled update fds.syscall_probe_enabled_fd cfg.domains.syscall
          s.syscall_probe_enabled in
      let file =
        apply_file_probe_config update fds.file_toggle_fd (effective_file_probes cfg)
          s.file_probe_enabled in
      let network =
        apply_network_probe_config update fds.network_probe_enabled_fd cfg.domains.network_socket
          s.network_probe_enabled in
      let r1 = require process.0 (codes "process probe toggle apply failed") report in
      let r2 = require syscall.0 (codes "syscall probe toggle apply failed") r1 in
      let r3 =
        require file.0 (codes "file probe toggle apply failed")
          (record r2 { file_probe_toggles_applied = file.0 }) in
      let r4 =
        require network.0 (codes "network probe toggle apply failed")
          (record r3 { network_probe_toggles_applied = network.0 }) in
      (
        record s {
          process_probe_enabled = process.1;
          syscall_probe_enabled = syscall.1;
          file_probe_enabled = file.1;
          network_probe_enabled = network.1;
        },
        r4,
      )

  -- The collector's own process id, as the kernel programs compare it.
  unfoldable pub apply_suppression :
      ℕ → KernelState × CollectorStartupReport → KernelState × CollectorStartupReport
  unfolding require
  apply_suppression pid (s, report) =
      if is_nonneg fds.suppress_tgid_fd
      then (let r = update fds.suppress_tgid_fd s.suppress_tgid 0 (u32 pid) in
          (
            record s { suppress_tgid = r.1 },
            require (is_zero r.0) (codes "suppress_tgid apply failed") report,
          ))
      else (s, report)

  -- The two, after the check that the map of the suppressed process is there.
  unfoldable pub start_switches :
      ℕ → KernelState × CollectorStartupReport → KernelState × CollectorStartupReport
  unfolding require apply_domains apply_suppression
  start_switches pid (s, report) = apply_suppression pid (
      apply_domains (
        s,
        require (is_nonneg fds.suppress_tgid_fd)
            (codes "suppress_tgid map missing; self-event suppression in-kernel disabled") report,
      ))
