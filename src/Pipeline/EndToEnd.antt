-- ===== src/Pipeline/EndToEnd.antt =====
-- From the calls of the kernel side to the file of the sink.
use e_trace_gen_e_bpfevent_t.Base.{
  ◌+◌, ◌^◌, ◌<◌, ◌≡◌, ◌≢◌, sym, subst, List, [], ◌∷◌, map, length, All,
}
use e_trace_gen_e_bpfevent_t.Schema.{Event, header}
use e_trace_gen_e_bpfevent_t.Kernel.State.{KernelState, MapHelpers, IsMapHelpers}
use e_trace_gen_e_bpfevent_t.Kernel.Call.{Call, run_all}
use e_trace_gen_e_bpfevent_t.Kernel.Sound.{IsSound, IsTagged}
use e_trace_gen_e_bpfevent_t.Kernel.Sound.History.{run_all-IsTagged, run_all-not_self}
use e_trace_gen_e_bpfevent_t.Decoder.Encode.{IsWire}
use e_trace_gen_e_bpfevent_t.Pipeline.Callback.{Pipeline, on_all}
use e_trace_gen_e_bpfevent_t.Pipeline.Flow.{Delivery, arrival_of, IsObserved, on_all-observe}

abbrev pub events_of : List Delivery → List Event
events_of = map (λ d. d.event)

All-events :
    (P : Event → Type 0) (ds : List Delivery) → All P (events_of ds) → All (λ d. P d.event) ds
All-events P [] h = tt
All-events P (d ∷ ds) h = (h.0, All-events P ds h.1)

All-both :
    (P Q : Delivery → Type 0) (ds : List Delivery) → All P ds → All Q ds → All (λ d. P d × Q d) ds
All-both P Q [] hp hq = tt
All-both P Q (d ∷ ds) hp hq = ((hp.0, hq.0), All-both P Q ds hp.1 hq.1)

-- The records of a history of kernel calls arrive in the order of their submission, each followed
-- by any bytes. If the history starts from a sound state with an empty ring buffer and with the
-- collector's tgid set in the suppression map, and the fields of the records hold values of their
-- types, then every record is decoded and none is dropped, none is the collector's own, and the
-- registry and the sink are those of the specification. The counter of decoded records does not
-- wrap.
pub kernel_to_sink :
    {h : MapHelpers} (laws : IsMapHelpers h) (cs : List Call) (s : KernelState) (ds : List Delivery)
    (p : Pipeline)
    → IsSound s
    → s.events ≡ []
    → s.suppress_tgid 0 ≢ 0
    → events_of ds ≡ (run_all h cs s).events
    → All IsWire (run_all h cs s).events
    → p.metrics.decoded + length ds < 2 ^ 64
    → IsObserved (s.suppress_tgid 0) ds p (on_all (s.suppress_tgid 0) (map arrival_of ds) p)
      × All (λ d. (header d.event).tgid ≢ s.suppress_tgid 0) ds
kernel_to_sink laws cs s ds p sound none_yet set same wire space =
    let start_tagged : All IsTagged s.events = rw none_yet tt in
    let tagged = subst (All IsTagged) (sym same) (run_all-IsTagged laws cs s sound start_tagged) in
    let others : All (λ ev. (header ev).tgid ≢ s.suppress_tgid 0) s.events = rw none_yet tt in
    let foreign =
      subst (All (λ ev. (header ev).tgid ≢ s.suppress_tgid 0)) (sym same)
        (run_all-not_self laws cs s sound set others) in
    (
      on_all-observe (s.suppress_tgid 0) ds p
          (All-both (λ d. IsTagged d.event) (λ d. IsWire d.event) ds (All-events IsTagged ds tagged)
            (All-events IsWire ds (subst (All IsWire) (sym same) wire)))
          space,
      All-events (λ ev. (header ev).tgid ≢ s.suppress_tgid 0) ds foreign,
    )
