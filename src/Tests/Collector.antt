-- ===== src/Tests/Collector.antt =====
-- The startup of the collector at a concrete configuration.
use e_trace_gen_e_bpfevent_t.Base.{
  pos, ◌≡◌, refl, true, false, ◌==◌, if◌then◌else◌, List, [], ◌∷◌, u32, arith,
}
use e_trace_gen_e_bpfevent_t.Kernel.State.{KernelState, stat_inc}
use e_trace_gen_e_bpfevent_t.Kernel.Sound.{IsSound}
use e_trace_gen_e_bpfevent_t.Kernel.Call.{Tracepoint, Call, run_all}
use e_trace_gen_e_bpfevent_t.Kernel.Guard.{is_guarded}
use e_trace_gen_e_bpfevent_t.Config.Runtime.{RuntimeConfig, default_runtime_config}
use e_trace_gen_e_bpfevent_t.Collector.Toggles.{UpdateElem, IsUpdateElem}
use e_trace_gen_e_bpfevent_t.Collector.Startup.{CollectorStartupReport, MapFds, start_switches}
use e_trace_gen_e_bpfevent_t.Collector.Guards.{is_configured, start_switches-is_configured}
use e_trace_gen_e_bpfevent_t.Collector.Off.{configured_calls, start_switches-run_all}
use e_trace_gen_e_bpfevent_t.Collector.Counters.{
  plus_one, read_per_cpu_counter, read_per_cpu_counter-stat_inc,
}
use e_trace_gen_e_bpfevent_t.Tests.Setup.{roomy, roomy-IsMapHelpers, task_at, exit_with, loaded}

-- Arrays that take every write.
abbrev written : UpdateElem
written fd values key value = (pos 0, λ j. if j == key then value else values j)

written-IsUpdateElem : IsUpdateElem written
written-IsUpdateElem fd values key value ok j = refl

abbrev fds : MapFds
fds = record {
  process_toggle_fd = pos 3;
  file_toggle_fd = pos 4;
  syscall_probe_enabled_fd = pos 5;
  network_probe_enabled_fd = pos 6;
  suppress_tgid_fd = pos 7;
}

abbrev no_process : RuntimeConfig
no_process = record default_runtime_config {
  domains = record { process = false; file = true; syscall = true; network_socket = false };
}

abbrev fresh : CollectorStartupReport
fresh = record {
  file_probe_toggles_applied = false;
  network_probe_toggles_applied = false;
  degraded = false;
  degrade_reason = [];
}

abbrev started : KernelState × CollectorStartupReport
started = start_switches written fds no_process 42 (loaded, fresh)

started-kept : started.1.degraded ≡ false
unfolding start_switches
started-kept = refl

start_switches-is_configured_example :
    ((at : Tracepoint) → is_guarded at started.0 ≡ is_configured at no_process)
    × (started.0.suppress_tgid 0 ≡ u32 42)
start_switches-is_configured_example =
    start_switches-is_configured written written-IsUpdateElem fds no_process 42 loaded fresh
      started-kept

-- A fork and an exit of a process, and a system call between them.
abbrev calls : List Call
calls =
    record { env = task_at 7 10 []; at = Tracepoint.sched_fork (pos 8) }
    ∷ record { env = task_at 7 20 []; at = Tracepoint.raw_exit (exit_with 0) }
    ∷ record { env = task_at 7 30 []; at = Tracepoint.sched_exit }
    ∷ []

started-IsSound : IsSound started.0
unfolding start_switches
started-IsSound = record {
  file_entries = λ k v found. ground arith;
  syscall_entries = λ k v found. ground arith;
  network_entries = λ k v found. ground arith;
}

start_switches-run_all_example :
    run_all roomy calls started.0 ≡ run_all roomy (configured_calls no_process calls) started.0
start_switches-run_all_example =
    start_switches-run_all roomy-IsMapHelpers written fds no_process 42 loaded fresh calls
      written-IsUpdateElem started-kept started-IsSound

read_per_cpu_counter-stat_inc_example :
    read_per_cpu_counter 4 (stat_inc 2 3 loaded).bpf_stats 3
    ≡ plus_one (read_per_cpu_counter 4 loaded.bpf_stats 3)
read_per_cpu_counter-stat_inc_example =
    read_per_cpu_counter-stat_inc 4 2 3 loaded (omega arith) (omega arith) 3
