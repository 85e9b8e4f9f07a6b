-- ===== src/Kernel/Sound/History.antt =====
-- What holds after any history of calls.
use mathlib.Core.List.{append-nil, append_assoc}
use e_trace_gen_e_bpfevent_t.Base.{
  ℕ, ◌≡◌, ◌≢◌, refl, ◌∙◌, List, [], ◌∷◌, ◌++◌, arith, All, All-append, length, ◌≤◌, inl, inr, ap,
  sym, true,
}
use e_trace_gen_e_bpfevent_t.Schema.{Event, header}
use e_trace_gen_e_bpfevent_t.Kernel.State.{KernelState, MapHelpers, IsMapHelpers}
use e_trace_gen_e_bpfevent_t.Kernel.Env.{Env}
use e_trace_gen_e_bpfevent_t.Kernel.Gate.{tgid_of, is_event_allowed}
use e_trace_gen_e_bpfevent_t.Kernel.Call.{Call, run, run_all}
use e_trace_gen_e_bpfevent_t.Kernel.Sound.{IsSound, Emits, IsTagged, IsOwned}
use e_trace_gen_e_bpfevent_t.Kernel.Sound.Dispatch.{run-Effect}

-- A predicate of every record that a call may submit holds of all that it leaves.
Emits-All :
    (P : Event → Type 0) (env : Env) (s s' : KernelState)
    → Emits env s s'
    → ((ev : Event)
        → IsTagged ev
        → IsOwned env.current_pid_tgid (header ev)
        → is_event_allowed env s ≡ true
        → P ev)
    → All P s.events
    → All P s'.events
Emits-All P env s s' (inl same) new old = rw same old
Emits-All P env s s' (inr (ev, grown, tagged, owned, allowed)) new old =
    rw grown (All-append P s.events (ev ∷ []) old (new ev tagged owned allowed, tt))

-- A task that passes the gates is not the suppressed one.
allowed-ne :
    (env : Env) (s : KernelState) (g : ℕ)
    → s.suppress_tgid 0 ≡ g
    → g ≢ 0
    → is_event_allowed env s ≡ true
    → tgid_of env.current_pid_tgid ≢ g
unfolding is_event_allowed
allowed-ne env s g e set allowed = ground arith

module _ {h : MapHelpers} (laws : IsMapHelpers h) where
  -- From a sound state, one call of any program submits nothing, or exactly one record, whose type
  -- and size are those of its payload and whose pid and tgid are the calling task's, a task that
  -- passed the gates.
  pub run-Emits : (c : Call) (s : KernelState) → IsSound s → Emits c.env s (run h c s)
  run-Emits c s i = (run-Effect laws c s i).emits

  -- Every state that a history of calls reaches from a sound state is sound: each stored record
  -- has the tag of its family, and belongs to the task and the kind (or syscall number) of its key.
  pub run_all-IsSound : (cs : List Call) (s : KernelState) → IsSound s → IsSound (run_all h cs s)
  unfolding run_all
  run_all-IsSound [] s i = i
  run_all-IsSound (c ∷ cs) s i = run_all-IsSound cs (run h c s) (run-Effect laws c s i).sound

  -- Every record that a history of calls submits from a sound state has the type and the size of
  -- its payload, if the records submitted before have.
  pub run_all-IsTagged :
      (cs : List Call) (s : KernelState)
      → IsSound s
      → All IsTagged s.events
      → All IsTagged (run_all h cs s).events
  unfolding run_all
  run_all-IsTagged [] s i old = old
  run_all-IsTagged (c ∷ cs) s i old =
      let e = run-Effect laws c s i in
      run_all-IsTagged cs (run h c s) e.sound
        (Emits-All IsTagged c.env s (run h c s) e.emits (λ ev tagged owned allowed. tagged) old)

  not_self_from :
      (g : ℕ) (cs : List Call) (s : KernelState)
      → g ≢ 0
      → s.suppress_tgid 0 ≡ g
      → IsSound s
      → All (λ ev. (header ev).tgid ≢ g) s.events
      → All (λ ev. (header ev).tgid ≢ g) (run_all h cs s).events
  unfolding run_all
  not_self_from g [] s set e i old = old
  not_self_from g (c ∷ cs) s set e i old =
      let eff = run-Effect laws c s i in
      not_self_from g cs (run h c s) set (ap (λ t. t.0 0) eff.gates_kept ∙ e) eff.sound (
        Emits-All _ c.env s (run h c s) eff.emits
          (λ ev tagged owned allowed. rw (owned.1) (allowed-ne c.env s g e set allowed)) old)

  -- With the collector's tgid set in the suppression map, no history of calls from a sound state
  -- submits a record of that tgid.
  pub run_all-not_self :
      (cs : List Call) (s : KernelState)
      → IsSound s
      → s.suppress_tgid 0 ≢ 0
      → All (λ ev. (header ev).tgid ≢ s.suppress_tgid 0) s.events
      → All (λ ev. (header ev).tgid ≢ s.suppress_tgid 0) (run_all h cs s).events
  run_all-not_self cs s i set = not_self_from (s.suppress_tgid 0) cs s set refl i

  -- A history only appends to the ring buffer, at most one record for each call.
  pub run_all-appends :
      (cs : List Call) (s : KernelState)
      → IsSound s
      → (new : List Event) × ((run_all h cs s).events ≡ s.events ++ new) × (length new ≤ length cs)
  unfolding run_all
  run_all-appends [] s i = ([], sym (append-nil s.events), omega arith)
  run_all-appends (c ∷ cs) s i =
      extend (run-Effect laws c s i).emits
        (run_all-appends cs (run h c s) (run-Effect laws c s i).sound)
    where
      extend :
          Emits c.env s (run h c s)
          → ((new : List Event) × ((run_all h cs (run h c s)).events ≡ (run h c s).events ++ new)
              × (length new ≤ length cs))
          → (new : List Event) × ((run_all h cs (run h c s)).events ≡ s.events ++ new)
            × (length new ≤ length (c ∷ cs))
      extend (inl same) (new, e, fits) = (new, e ∙ ap (λ l. l ++ new) same, omega arith)
      extend (inr (ev, grown, _, _, _)) (new, e, fits) = (
        ev ∷ new,
        e ∙ ap (λ l. l ++ new) grown ∙ append_assoc s.events (ev ∷ []) new,
        omega arith,
      )
