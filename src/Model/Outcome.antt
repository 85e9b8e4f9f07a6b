-- ===== src/Model/Outcome.antt =====
-- What every canonical event says of its outcome, its domain and its action.
use e_trace_gen_e_bpfevent_t.Kernel.Sound.{IsTagged}
use e_trace_gen_e_bpfevent_t.Base.{ℕ, ◌≡◌, ◌↔◌, refl, true, false, is_nonneg, arith}
use e_trace_gen_e_bpfevent_t.Schema.{Event, ProcessEvent, header}
use e_trace_gen_e_bpfevent_t.Schema.Kinds.{
  event_type_process, event_type_file, event_type_syscall, event_type_network,
}
use e_trace_gen_e_bpfevent_t.Model.Canonical.{CanonicalDomain, CanonicalAction, CanonicalEvent}
use e_trace_gen_e_bpfevent_t.Model.Normalizer.{
  make_actor, process_action, file_action, network_action, normalize, normalize_process,
}

-- An event counts as an error exactly when its outcome is below 0.
abbrev pub IsErrorBelowZero : CanonicalEvent → Type 0
IsErrorBelowZero c = (c.outcome_is_error ≡ true) ↔ (is_nonneg c.outcome ≡ false)

normalize_process_error :
    (ev : ProcessEvent) (action : CanonicalAction) (out : CanonicalEvent)
    → out.outcome_is_error ≡ false
    → is_nonneg out.outcome ≡ true
    → IsErrorBelowZero (normalize_process ev action out)
normalize_process_error ev action out no_error nonneg = ground arith

-- Of every record the canonical event is marked as an error exactly when its outcome is below 0:
-- a process record never is, the others by the 32-bit or 64-bit result of the call.
pub normalize-IsErrorBelowZero : (ev : Event) → IsErrorBelowZero (normalize ev)
unfolding normalize
normalize-IsErrorBelowZero (Event.process ev) =
    normalize_process_error ev (process_action ev.kind) _ refl refl
normalize-IsErrorBelowZero (Event.file ev) = ground arith
normalize-IsErrorBelowZero (Event.syscall ev) = ground arith
normalize-IsErrorBelowZero (Event.network ev) = ground arith

-- The domain that an action belongs to; the unknown action belongs to all.
abbrev pub IsOfDomain : CanonicalAction → CanonicalDomain → Type 0
IsOfDomain CanonicalAction.unknown d = Unit
IsOfDomain CanonicalAction.process_started d = d ≡ CanonicalDomain.process
IsOfDomain CanonicalAction.process_execed d = d ≡ CanonicalDomain.process
IsOfDomain CanonicalAction.process_exited d = d ≡ CanonicalDomain.process
IsOfDomain CanonicalAction.file_opened d = d ≡ CanonicalDomain.file
IsOfDomain CanonicalAction.file_deleted d = d ≡ CanonicalDomain.file
IsOfDomain CanonicalAction.file_renamed d = d ≡ CanonicalDomain.file
IsOfDomain CanonicalAction.syscall_invoked d = d ≡ CanonicalDomain.syscall
IsOfDomain _ d = d ≡ CanonicalDomain.network

-- The type tag of a domain's records.
abbrev pub type_of : CanonicalDomain → ℕ
type_of CanonicalDomain.process = event_type_process
type_of CanonicalDomain.file = event_type_file
type_of CanonicalDomain.syscall = event_type_syscall
type_of CanonicalDomain.network = event_type_network

process_action-IsOfDomain : (kind : ℕ) → IsOfDomain (process_action kind) CanonicalDomain.process
unfolding process_action
process_action-IsOfDomain kind = ground arith

file_action-IsOfDomain : (kind : ℕ) → IsOfDomain (file_action kind) CanonicalDomain.file
unfolding file_action
file_action-IsOfDomain kind = ground arith

network_action-IsOfDomain : (kind : ℕ) → IsOfDomain (network_action kind) CanonicalDomain.network
unfolding network_action
network_action-IsOfDomain kind = ground arith

normalize_process-same :
    (ev : ProcessEvent) (action : CanonicalAction) (out : CanonicalEvent)
    → ((normalize_process ev action out).domain ≡ out.domain)
      × ((normalize_process ev action out).action ≡ out.action)
      × ((normalize_process ev action out).actor ≡ out.actor)
normalize_process-same ev action out = ground arith

process_kept :
    (P : CanonicalDomain → CanonicalAction → Type 0) (ev : ProcessEvent) (action : CanonicalAction)
    (out : CanonicalEvent)
    → P out.domain out.action
    → P (normalize_process ev action out).domain (normalize_process ev action out).action
process_kept P ev action out p =
    let same = normalize_process-same ev action out in rw (same.0, same.1) p

-- The action of a canonical event is one of its domain, or unknown, whatever the record's kind.
pub normalize-IsOfDomain : (ev : Event) → IsOfDomain (normalize ev).action (normalize ev).domain
unfolding normalize
normalize-IsOfDomain (Event.process ev) =
    process_kept (λ d a. IsOfDomain a d) ev (process_action ev.kind) _
      (process_action-IsOfDomain ev.kind)
normalize-IsOfDomain (Event.file ev) = file_action-IsOfDomain ev.kind
normalize-IsOfDomain (Event.syscall ev) = refl
normalize-IsOfDomain (Event.network ev) = network_action-IsOfDomain ev.kind

pub normalize-tgid : (ev : Event) → (normalize ev).actor.tgid ≡ (header ev).tgid
unfolding normalize make_actor
normalize-tgid (Event.process ev) = ground arith
normalize-tgid (Event.file ev) = refl
normalize-tgid (Event.syscall ev) = refl
normalize-tgid (Event.network ev) = refl

pub normalize-type : (ev : Event) → IsTagged ev → type_of (normalize ev).domain ≡ (header ev).type
unfolding normalize
normalize-type (Event.process ev) tagged =
    process_kept (λ d a. type_of d ≡ ev.hdr.type) ev (process_action ev.kind) _ (ground arith)
normalize-type (Event.file ev) tagged = ground arith
normalize-type (Event.syscall ev) tagged = ground arith
normalize-type (Event.network ev) tagged = ground arith
