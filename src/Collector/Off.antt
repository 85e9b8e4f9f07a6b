-- ===== src/Collector/Off.antt =====
-- A history of calls after the startup: the programs that the configuration switches off.
use e_trace_gen_e_bpfevent_t.Base.{
  ℕ, false, ◌≡◌, if◌then◌else◌, List, [], ◌∷◌, arith, refl, ap, sym, ◌∙◌, inl, inr, Bool-cases,
}
use e_trace_gen_e_bpfevent_t.Kernel.State.{KernelState, MapHelpers, IsMapHelpers}
use e_trace_gen_e_bpfevent_t.Kernel.Call.{Call, run, run_all}
use e_trace_gen_e_bpfevent_t.Kernel.Sound.{gates, IsSound}
use e_trace_gen_e_bpfevent_t.Kernel.Sound.Dispatch.{run-Effect}
use e_trace_gen_e_bpfevent_t.Kernel.Shut.{dispatch_shut}
use e_trace_gen_e_bpfevent_t.Config.Runtime.{RuntimeConfig}
use e_trace_gen_e_bpfevent_t.Collector.Toggles.{UpdateElem, IsUpdateElem}
use e_trace_gen_e_bpfevent_t.Collector.Startup.{CollectorStartupReport, MapFds, start_switches}
use e_trace_gen_e_bpfevent_t.Collector.Guards.{
  is_configured, IsSwitched, guarded, start_switches-IsSwitched,
}

-- The calls of the programs that are on.
unfoldable pub configured_calls : RuntimeConfig → List Call → List Call
configured_calls cfg [] = []
configured_calls cfg (c ∷ cs) =
    let rest = configured_calls cfg cs in if is_configured c.at cfg then c ∷ rest else rest

gates-IsSwitched :
    {cfg : RuntimeConfig} {s s' : KernelState}
    → gates s' ≡ gates s
    → IsSwitched cfg s
    → IsSwitched cfg s'
gates-IsSwitched same w = record {
  process_set = λ j named. ap (λ g. g.2 j) same ∙ w.process_set j named;
  syscall_set = ap (λ g. g.3 0) same ∙ w.syscall_set;
  file_set = (
    ap (λ g. g.1 1) same ∙ w.file_set.0,
    ap (λ g. g.1 2) same ∙ w.file_set.1,
    ap (λ g. g.1 3) same ∙ w.file_set.2,
  );
  network_set = λ j named. ap (λ g. g.4 j) same ∙ w.network_set j named;
}

module _ {h : MapHelpers} (laws : IsMapHelpers h) {cfg : RuntimeConfig} where
  run_off :
      (c : Call) (s : KernelState)
      → IsSwitched cfg s
      → is_configured c.at cfg ≡ false
      → run h c s ≡ s
  unfolding run
  run_off c s w off =
      let closed = guarded w c.at ∙ off in dispatch_shut h c.env c.at s (ground arith)

  configured_calls_lem :
      (cs : List Call) (s : KernelState)
      → IsSwitched cfg s
      → IsSound s
      → run_all h cs s ≡ run_all h (configured_calls cfg cs) s
  unfolding run_all configured_calls
  configured_calls_lem [] s w i = refl
  configured_calls_lem (c ∷ cs) s w i = elim (Bool-cases (is_configured c.at cfg)) [
    | inl on ↦
        let eff = run-Effect laws c s i in
        configured_calls_lem cs (run h c s) (gates-IsSwitched eff.gates_kept w) eff.sound
        ∙ sym (
            ap
              (λ b.
                run_all h (if b then c ∷ configured_calls cfg cs else configured_calls cfg cs) s)
              on)
    | inr off ↦
        ap (run_all h cs) (run_off c s w off)
        ∙ configured_calls_lem cs s w i
        ∙ sym (
            ap
              (λ b.
                run_all h (if b then c ∷ configured_calls cfg cs else configured_calls cfg cs) s)
              off)
  ]

module _ {h : MapHelpers} (laws : IsMapHelpers h) where
  -- After a startup whose report is not degraded, from a sound state, a history of calls leaves the
  -- same state, its records, counters and maps, as the history without the calls of the programs
  -- that the configuration switches off.
  pub start_switches-run_all :
      (update : UpdateElem) (fds : MapFds) (cfg : RuntimeConfig) (pid : ℕ) (s : KernelState)
      (report : CollectorStartupReport) (cs : List Call)
      → IsUpdateElem update
      → (start_switches update fds cfg pid (s, report)).1.degraded ≡ false
      → IsSound (start_switches update fds cfg pid (s, report)).0
      → run_all h cs (start_switches update fds cfg pid (s, report)).0
        ≡ run_all h (configured_calls cfg cs) (start_switches update fds cfg pid (s, report)).0
  start_switches-run_all update fds cfg pid s report cs updates kept i =
      configured_calls_lem laws cs _
        (start_switches-IsSwitched update updates fds cfg pid s report kept).0 i
