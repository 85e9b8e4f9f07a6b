-- ===== src/Tests/Model.antt =====
-- Canonical events at concrete records and histories.
use e_trace_gen_e_bpfevent_t.Base.{negsuc, pos, List, [], ◌∷◌, ◌≡◌, ◌≢◌, refl, true, All, arith}
use e_trace_gen_e_bpfevent_t.Schema.{Event, header}
use e_trace_gen_e_bpfevent_t.Kernel.Call.{Call, Tracepoint, run_all}
use e_trace_gen_e_bpfevent_t.Model.Canonical.{CanonicalAction}
use e_trace_gen_e_bpfevent_t.Model.Normalizer.{normalize, file_action}
use e_trace_gen_e_bpfevent_t.Model.Outcome.{
  IsErrorBelowZero, IsOfDomain, type_of, normalize-IsErrorBelowZero, normalize-IsOfDomain,
}
use e_trace_gen_e_bpfevent_t.Model.History.{normalize-not_self, normalize-domain}
use e_trace_gen_e_bpfevent_t.Tests.Setup.{
  roomy, roomy-IsMapHelpers, task_at, loaded, loaded-IsSound, file_slot,
}

-- An `openat` that gave -2.
abbrev missing_file : Event
missing_file = Event.file (record file_slot { kind = 1; ret = negsuc 1 })

normalize-IsErrorBelowZero_example : IsErrorBelowZero (normalize missing_file)
normalize-IsErrorBelowZero_example = normalize-IsErrorBelowZero missing_file

normalize-IsOfDomain_example :
    IsOfDomain (normalize missing_file).action (normalize missing_file).domain
normalize-IsOfDomain_example = normalize-IsOfDomain missing_file

-- The collector forks, then another process does.
abbrev forks : List Call
forks =
    record { env = task_at 99 10 []; at = Tracepoint.sched_fork (pos 100) }
    ∷ record { env = task_at 7 20 []; at = Tracepoint.sched_fork (pos 8) }
    ∷ []

normalize-not_self_example :
    All
      (λ ev. (normalize ev).actor.tgid ≢ loaded.suppress_tgid 0)
      (run_all roomy forks loaded).events
normalize-not_self_example =
    normalize-not_self roomy-IsMapHelpers forks loaded loaded-IsSound refl (omega arith)

normalize-domain_example :
    All (λ ev. type_of (normalize ev).domain ≡ (header ev).type) (run_all roomy forks loaded).events
normalize-domain_example = normalize-domain roomy-IsMapHelpers forks loaded loaded-IsSound refl

missing_opened : (normalize missing_file).action ≡ CanonicalAction.file_opened
unfolding normalize file_action
missing_opened = refl

missing_error : (normalize missing_file).outcome_is_error ≡ true
unfolding normalize
missing_error = refl
