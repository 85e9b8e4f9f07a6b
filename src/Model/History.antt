-- ===== src/Model/History.antt =====
-- From the ring buffer to canonical events: what holds of all that a history of calls submits.
use e_trace_gen_e_bpfevent_t.Base.{◌≡◌, ◌≢◌, ◌∙◌, sym, List, [], ◌∷◌, All}
use e_trace_gen_e_bpfevent_t.Schema.{header}
use e_trace_gen_e_bpfevent_t.Kernel.State.{KernelState, MapHelpers, IsMapHelpers}
use e_trace_gen_e_bpfevent_t.Kernel.Call.{Call, run_all}
use e_trace_gen_e_bpfevent_t.Kernel.Sound.{IsSound}
use e_trace_gen_e_bpfevent_t.Kernel.Sound.History.{run_all-IsTagged, run_all-not_self}
use e_trace_gen_e_bpfevent_t.Model.Normalizer.{normalize}
use e_trace_gen_e_bpfevent_t.Model.Outcome.{type_of, normalize-type, normalize-tgid}

All-map :
    {A : Type 0} (P Q : A → Type 0) → ((a : A) → P a → Q a) → (xs : List A) → All P xs → All Q xs
All-map P Q f [] all = tt
All-map P Q f (x ∷ xs) (p, all) = (f x p, All-map P Q f xs all)

module _ {h : MapHelpers} (laws : IsMapHelpers h) (cs : List Call) (s : KernelState)
    (sound : IsSound s) where
  -- From a sound state with an empty ring buffer, and with the collector's tgid set in the
  -- suppression map, no canonical event of a history of calls has the collector as its actor.
  pub normalize-not_self :
      s.events ≡ []
      → s.suppress_tgid 0 ≢ 0
      → All (λ ev. (normalize ev).actor.tgid ≢ s.suppress_tgid 0) (run_all h cs s).events
  normalize-not_self empty set =
      All-map _ _ (λ ev other same. other (sym (normalize-tgid ev) ∙ same)) (run_all h cs s).events
        (run_all-not_self laws cs s sound set (rw empty tt))

  -- From a sound state with an empty ring buffer, every canonical event of a history of calls has
  -- the domain that the type tag of its record names.
  pub normalize-domain :
      s.events ≡ []
      → All (λ ev. type_of (normalize ev).domain ≡ (header ev).type) (run_all h cs s).events
  normalize-domain empty =
      All-map _ _ normalize-type (run_all h cs s).events
        (run_all-IsTagged laws cs s sound (rw empty tt))
