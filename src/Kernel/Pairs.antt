-- ===== src/Kernel/Pairs.antt =====
-- Enter and exit handlers as pairs: what an enter handler saves, what the exit handler of the same
-- task makes of it, and the calls of other tasks in between.
pub mod File
pub mod Syscall
pub mod Network
pub mod Sockets
use e_trace_gen_e_bpfevent_t.Base.{
  some, Option, ℕ, ◌≡◌, ◌≢◌, ◌⊎◌, ◌∙◌, refl, inl, inr, sym, List, [], ◌∷◌, All, none,
}
use e_trace_gen_e_bpfevent_t.Base.{Contents}
use e_trace_gen_e_bpfevent_t.Kernel.State.{KernelState, MapHelpers, IsMapHelpers}
use e_trace_gen_e_bpfevent_t.Kernel.Call.{Call, run, run_all}
use e_trace_gen_e_bpfevent_t.Kernel.Sound.{IsSound, SparedBy, Effect}
use e_trace_gen_e_bpfevent_t.Kernel.Sound.Dispatch.{run-Effect}

-- No call of the history is the task's.
abbrev pub OfOthers : ℕ → List Call → Type 0
OfOthers pid_tgid = All (λ c. pid_tgid ≢ c.env.current_pid_tgid)

-- An entry that stays or is evicted, twice.
evicted_trans :
    {V : Type 0} {a b c : V} {e : V} → (b ≡ a) ⊎ (b ≡ e) → (c ≡ b) ⊎ (c ≡ e) → (c ≡ a) ⊎ (c ≡ e)
evicted_trans p (inr gone) = inr gone
evicted_trans (inl p) (inl q) = inl (q ∙ p)
evicted_trans (inr gone) (inl q) = inr (q ∙ gone)

-- What was stored is still there, or gone.
pub kept_or_gone :
    {V : Type 0} {a b : Option V} {v : V}
    → a ≡ some v
    → (b ≡ a) ⊎ (b ≡ none)
    → (b ≡ some v) ⊎ (b ≡ none)
kept_or_gone stored (inl kept) = inl (kept ∙ stored)
kept_or_gone stored (inr gone) = inr gone

-- A map that every call spares, over a history.
pub run_all-spared :
    {K V : Type 0} {h : MapHelpers} (laws : IsMapHelpers h) (owner : K → ℕ)
    (contents : KernelState → Contents K V)
    → ((c : Call) (s : KernelState)
        → Effect c.env s (run h c s)
        → SparedBy c.env.current_pid_tgid owner (contents s) (contents (run h c s)))
    → (k : K) (cs : List Call) (s : KernelState) → IsSound s
    → OfOthers (owner k) cs
    → (contents (run_all h cs s) k ≡ contents s k) ⊎ (contents (run_all h cs s) k ≡ none)
unfolding run_all
run_all-spared laws owner contents spares k [] s i others = inl refl
run_all-spared {h} laws owner contents spares k (c ∷ cs) s i (other, others) =
    let eff = run-Effect laws c s i in
    evicted_trans (spares c s eff k other)
      (run_all-spared laws owner contents spares k cs (run h c s) eff.sound others)
