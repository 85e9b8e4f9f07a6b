-- ===== src/Kernel/Sound/Effects.antt =====
-- Effects of the single steps of a handler: counting, submitting, saving and deleting.
use e_trace_gen_e_bpfevent_t.Base.{◌∙◌, ℕ, ◌≡◌, refl, inl, inr, ltb, Bool-cases}
use e_trace_gen_e_bpfevent_t.Base.{Option, none, some}
use e_trace_gen_e_bpfevent_t.Kernel.State.{stat_ringbuf_reserve_fail}
use e_trace_gen_e_bpfevent_t.Kernel.Reserve.{count_reserve}
use e_trace_gen_e_bpfevent_t.Base.{if◌then◌else◌, Bool, true, false}
use e_trace_gen_e_bpfevent_t.Schema.{Event, header}
use e_trace_gen_e_bpfevent_t.Kernel.State.{KernelState, stat_inc, stat_max}
use e_trace_gen_e_bpfevent_t.Kernel.Env.{Env}
use e_trace_gen_e_bpfevent_t.Kernel.Gate.{is_event_allowed}
use e_trace_gen_e_bpfevent_t.Kernel.Process.{submit}
use e_trace_gen_e_bpfevent_t.Kernel.Sound.{gates, Spares, IsSound, Effect, IsTagged, IsOwned}

-- A step that leaves the stored records alone.
abbrev pub SameStored : KernelState → KernelState → Type 0
SameStored s s' =
    (s'.file_enter_state ≡ s.file_enter_state)
    × (s'.syscall_enter_state ≡ s.syscall_enter_state)
    × (s'.network_enter_state ≡ s.network_enter_state)

-- Nothing is submitted.
pub record Quiet (env : Env) (s s' : KernelState) : Type 0 where
  pub sound : IsSound s'
  pub same_events : s'.events ≡ s.events
  pub spares : Spares env s s'
  pub same_gates : gates s' ≡ gates s

pub Spares-refl : {env : Env} {s : KernelState} → Spares env s s
Spares-refl = record {
  files = λ k other. inl refl;
  syscalls = λ k other. inl refl;
  networks = λ k other. inl refl;
}

-- Only the maps of stored records matter.
pub SameStored-IsSound : {s s' : KernelState} → SameStored s s' → IsSound s → IsSound s'
SameStored-IsSound (f, c, n) i = record {
  file_entries = rw f i.file_entries;
  syscall_entries = rw c i.syscall_entries;
  network_entries = rw n i.network_entries;
}

pub SameStored-Spares :
    {env : Env} {s s' s'' : KernelState} → SameStored s' s'' → Spares env s s' → Spares env s s''
SameStored-Spares (f, c, n) old = record {
  files = rw f old.files;
  syscalls = rw c old.syscalls;
  networks = rw n old.networks;
}

module _ {env : Env} {s : KernelState} where
  pub Quiet-refl : IsSound s → Quiet env s s
  Quiet-refl i = record { sound = i; same_events = refl; spares = Spares-refl; same_gates = refl }

  pub Quiet-Effect : {s' : KernelState} → Quiet env s s' → Effect env s s'
  Quiet-Effect q = record {
    sound = q.sound;
    emits = inl q.same_events;
    spares = q.spares;
    gates_kept = q.same_gates;
  }

  -- A further step that changes neither stored records nor events.
  pub SameStored-Quiet :
      {s' s'' : KernelState}
      → SameStored s' s''
      → s''.events ≡ s'.events
      → gates s'' ≡ gates s'
      → Quiet env s s'
      → Quiet env s s''
  SameStored-Quiet same events kept q = record {
    sound = SameStored-IsSound same q.sound;
    same_events = events ∙ q.same_events;
    spares = SameStored-Spares same q.spares;
    same_gates = kept ∙ q.same_gates;
  }

  pub stat_inc-Quiet :
      {s' : KernelState} (cpu key : ℕ) → Quiet env s s' → Quiet env s (stat_inc cpu key s')
  unfolding stat_inc
  stat_inc-Quiet cpu key q = elim (Bool-cases (ltb key stat_max)) [
    | inl counted ↦ rw counted (SameStored-Quiet (refl, refl, refl) refl refl q)
    | inr past ↦ rw past q
  ]

  pub submit-Effect :
      {s' : KernelState} (ev : Event)
      → IsTagged ev
      → IsOwned env.current_pid_tgid (header ev)
      → is_event_allowed env s ≡ true
      → Quiet env s s'
      → Effect env s (submit ev s')
  submit-Effect ev tagged owned allowed q = record {
    sound = SameStored-IsSound (refl, refl, refl) q.sound;
    emits = inr (ev, rw (q.same_events), tagged, owned, allowed);
    spares = SameStored-Spares (refl, refl, refl) q.spares;
    gates_kept = q.same_gates;
  }

-- A handler behind its gates.
pub gate_cases :
    {env : Env} {s t : KernelState} (shut : Bool)
    → IsSound s
    → (shut ≡ false → Effect env s t)
    → Effect env s (if shut then s else t)
gate_cases true i e = Quiet-Effect (Quiet-refl i)
gate_cases false i e = e refl

-- A lookup, with its equation.
pub lookup_cases :
    {A V : Type 0} (P : A → Type 0) (found : Option V) {missed : A} (go : V → A)
    → P missed
    → ((v : V) → found ≡ some v → P (go v))
    → P (elim found as (λ x. A) [ none ↦ missed | some v ↦ go v ])
lookup_cases P none go m g = m
lookup_cases P (some v) go m g = g v refl

-- A save that may fail, and is counted then.
pub settle-Quiet :
    {env : Env} {s t : KernelState} (saved : Bool) (cpu key : ℕ)
    → Quiet env s t
    → Quiet env s (if saved then t else stat_inc cpu key t)
settle-Quiet true cpu key q = q
settle-Quiet false cpu key q = stat_inc-Quiet cpu key q

-- A reservation fails and is counted, or it gives a slot.
pub reserve_cases :
    {A B : Type 0} (P : KernelState → Type 0) (env : Env) (s : KernelState) (init : A → B)
    (fail : KernelState → KernelState) (go : B → KernelState → KernelState) (slot : Option A)
    → P (fail (stat_inc env.cpu stat_ringbuf_reserve_fail s))
    → ((a : A) → P (go (init a) s))
    → P (elim (elim slot as (λ x. Option B) [ none ↦ none | some a ↦ some (init a) ]) [
      | none ↦ fail (count_reserve env slot s)
      | some ev ↦ go ev (count_reserve env slot s)
    ])
reserve_cases P env s init fail go none failed went = failed
reserve_cases P env s init fail go (some a) failed went = went a
