-- ===== src/Tests/Runs.antt =====
-- The properties of Kernel at concrete runs.
use e_trace_gen_e_bpfevent_t.Kernel.Shut.{dispatch_shut}
use e_trace_gen_e_bpfevent_t.Kernel.Sound.History.{
  run_all-IsSound, run_all-IsTagged, run_all-not_self, run_all-appends, run-Emits,
}
use e_trace_gen_e_bpfevent_t.Kernel.Sound.{IsSound, IsTagged, Emits}
use e_trace_gen_e_bpfevent_t.Kernel.Network.Pairing.{make_network_key, save_network_enter_state}
use e_trace_gen_e_bpfevent_t.Kernel.Network.Enter.{network_enter, network_save}
use e_trace_gen_e_bpfevent_t.Kernel.Network.Build.{build_socket}
use e_trace_gen_e_bpfevent_t.Kernel.Syscall.{
  make_syscall_key, on_raw_sys_enter, save_syscall_enter_state,
}
use e_trace_gen_e_bpfevent_t.Kernel.Pairs.Network.{IsNetworkSettled, network_pair}
use e_trace_gen_e_bpfevent_t.Kernel.Pairs.Syscall.{IsSyscallSettled, saved_at, syscall_pair}
use e_trace_gen_e_bpfevent_t.Base.{
  s32, some, ◌++◌, length, ◌≤◌, pos, List, [], ◌∷◌, ◌≡◌, ◌≢◌, refl, arith, All,
}
use e_trace_gen_e_bpfevent_t.Schema.{Event, header}
use e_trace_gen_e_bpfevent_t.Schema.Kinds.{file_openat, network_socket}
use e_trace_gen_e_bpfevent_t.Kernel.Env.{Env}
use e_trace_gen_e_bpfevent_t.Kernel.Gate
use e_trace_gen_e_bpfevent_t.Kernel.Reserve.{init_file_event, init_network_event}
use e_trace_gen_e_bpfevent_t.Kernel.File.{file_enter, file_exit, write_openat, make_file_key}
use e_trace_gen_e_bpfevent_t.Kernel.File
use e_trace_gen_e_bpfevent_t.Kernel.Call.{Tracepoint, Call, dispatch, run, run_all}
use e_trace_gen_e_bpfevent_t.Kernel.Pairs.File.{IsFileSettled, file_pair}
use e_trace_gen_e_bpfevent_t.Tests.Setup.{
  roomy, roomy-IsMapHelpers, task_at, enter_args, exit_with, loaded, loaded-IsSound, file_slot,
  network_slot, syscall_slot,
}

-- Task 7 enters, task 8 opens a file meanwhile, and task 7 leaves.
abbrev opener : Env
opener = task_at 7 100 (47 ∷ 101 ∷ 116 ∷ 99 ∷ 0 ∷ [])

abbrev leaver : Env
leaver = task_at 7 200 []

abbrev meanwhile : List Call
meanwhile = record { env = task_at 8 150 []; at = Tracepoint.enter_openat enter_args } ∷ []

file_pair_example :
    ((file_enter roomy opener file_openat (write_openat opener enter_args) loaded).file_enter_state
        (make_file_key opener file_openat)
      ≡ some (write_openat opener enter_args (init_file_event opener file_openat file_slot)))
    × IsFileSettled roomy leaver file_openat
        (exit_with 3)
        (write_openat opener enter_args (init_file_event opener file_openat file_slot))
        (run_all roomy meanwhile
          (file_enter roomy opener file_openat (write_openat opener enter_args) loaded))
unfolding Gate.is_event_allowed Gate.is_file_probe_enabled run_all run dispatch file_enter
    File.on_sys_enter_openat File.save_file_enter_state
file_pair_example =
    file_pair roomy-IsMapHelpers opener leaver file_openat (write_openat opener enter_args)
      (λ ev. (refl, refl, refl)) (exit_with 3) file_slot file_slot meanwhile loaded loaded-IsSound
      (refl, refl) refl refl refl refl (omega arith, tt) (refl, refl) refl

syscall_pair_example :
    ((on_raw_sys_enter roomy opener enter_args loaded).syscall_enter_state
        (make_syscall_key opener (s32 enter_args.id))
      ≡ some (saved_at opener enter_args))
    × IsSyscallSettled roomy leaver
        (exit_with 3)
        (saved_at opener enter_args)
        (run_all roomy meanwhile (on_raw_sys_enter roomy opener enter_args loaded))
unfolding Gate.is_event_allowed Gate.is_file_probe_enabled Gate.is_syscall_probe_enabled
    Gate.is_syscall_allowed run_all run dispatch file_enter File.on_sys_enter_openat
    File.save_file_enter_state on_raw_sys_enter save_syscall_enter_state
syscall_pair_example =
    syscall_pair roomy-IsMapHelpers opener leaver enter_args (exit_with 3) syscall_slot syscall_slot
      meanwhile loaded loaded-IsSound (refl, refl) refl refl refl refl refl (omega arith, tt)
      (refl, refl) refl

network_pair_example :
    ((network_enter roomy opener network_socket
          (build_socket opener enter_args)
          loaded).network_enter_state
        (make_network_key opener network_socket)
      ≡ some
          (build_socket opener enter_args (init_network_event opener network_socket network_slot)))
    × IsNetworkSettled roomy leaver network_socket
        (exit_with 3)
        (build_socket opener enter_args (init_network_event opener network_socket network_slot))
        (run_all roomy meanwhile
          (network_enter roomy opener network_socket (build_socket opener enter_args) loaded))
unfolding Gate.is_event_allowed Gate.is_file_probe_enabled Gate.is_network_probe_enabled run_all run
    dispatch file_enter File.on_sys_enter_openat File.save_file_enter_state network_enter
    network_save save_network_enter_state
network_pair_example =
    network_pair roomy-IsMapHelpers opener leaver network_socket (build_socket opener enter_args)
      (λ ev. (refl, refl)) (exit_with 3) network_slot network_slot meanwhile loaded loaded-IsSound
      (refl, refl) refl refl refl refl refl (omega arith, tt) (refl, refl) refl

run_all-IsSound_example : IsSound (run_all roomy meanwhile loaded)
run_all-IsSound_example = run_all-IsSound roomy-IsMapHelpers meanwhile loaded loaded-IsSound

-- The collector's own process executes a program, then another one.
abbrev execs : List Call
execs =
    record { env = task_at 99 10 []; at = Tracepoint.sched_fork (pos 100) }
    ∷ record { env = task_at 7 20 []; at = Tracepoint.sched_fork (pos 8) }
    ∷ []

run_all-IsTagged_example : All IsTagged (run_all roomy execs loaded).events
run_all-IsTagged_example = run_all-IsTagged roomy-IsMapHelpers execs loaded loaded-IsSound tt

run_all-not_self_example :
    All (λ ev. (header ev).tgid ≢ loaded.suppress_tgid 0) (run_all roomy execs loaded).events
run_all-not_self_example =
    run_all-not_self roomy-IsMapHelpers execs loaded loaded-IsSound (omega arith) tt

run_all-appends_example :
    (new : List Event) × ((run_all roomy execs loaded).events ≡ [] ++ new)
    × (length new ≤ length execs)
run_all-appends_example = run_all-appends roomy-IsMapHelpers execs loaded loaded-IsSound

abbrev forks : Call
forks = record { env = task_at 7 20 []; at = Tracepoint.sched_fork (pos 8) }

run-Emits_example : Emits forks.env loaded (run roomy forks loaded)
run-Emits_example = run-Emits roomy-IsMapHelpers forks loaded loaded-IsSound

dispatch_shut_example :
    dispatch roomy (task_at 99 10 []) (Tracepoint.enter_openat enter_args) loaded ≡ loaded
unfolding Gate.is_event_allowed Gate.is_file_probe_enabled
dispatch_shut_example =
    dispatch_shut roomy (task_at 99 10 []) (Tracepoint.enter_openat enter_args) loaded refl
