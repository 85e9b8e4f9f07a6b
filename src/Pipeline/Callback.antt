-- ===== src/Pipeline/Callback.antt =====
-- src/main.cpp: the callback of the collector, with src/metrics and src/policy.
use e_trace_gen_e_bpfevent_t.Base.{
  ℕ, ◌+◌, Bool, true, not, ◌==◌, if◌then◌else◌, List, [], ◌∷◌, Option, none, some, u64,
}
use e_trace_gen_e_bpfevent_t.Schema.{Event, header}
use e_trace_gen_e_bpfevent_t.Util.Proc.{Proc}
use e_trace_gen_e_bpfevent_t.Model.Normalizer.{normalize}
use e_trace_gen_e_bpfevent_t.Registry.Table.{EntityRegistry}
use e_trace_gen_e_bpfevent_t.Registry.Ingest.{ingest}
use e_trace_gen_e_bpfevent_t.Sink.File.{JsonSink, FileSystem, write}
use e_trace_gen_e_bpfevent_t.Decoder.Decode.{decode}

pub record Metrics : Type 0 where
  pub received : ℕ
  pub decoded : ℕ
  pub dropped : ℕ

abbrev pub increment_received : Metrics → Metrics
increment_received m = record m { received = u64 (m.received + 1) }

abbrev pub increment_decoded : Metrics → Metrics
increment_decoded m = record m { decoded = u64 (m.decoded + 1) }

abbrev pub increment_dropped : Metrics → Metrics
increment_dropped m = record m { dropped = u64 (m.dropped + 1) }

-- `PolicyEngine::Allow`
unfoldable pub allow : Event → Bool
allow event = true

-- `IsSelfEvent`
unfoldable pub is_self_event : Event → ℕ → Bool
is_self_event event self_tgid = (header event).tgid == self_tgid

-- What the callback changes.
pub record Pipeline : Type 0 where
  pub registry : EntityRegistry
  pub sink : JsonSink
  pub metrics : Metrics

-- The bytes of one record, and the system while the callback runs.
pub record Arrival : Type 0 where
  pub raw : List ℕ
  pub proc : Proc
  pub fs : FileSystem

-- What the callback does with a decoded event.
unfoldable pub on_event : ℕ → Proc → FileSystem → Event → Pipeline → Pipeline
unfolding allow is_self_event
on_event self_tgid proc fs event p =
    let canonical = ingest proc (normalize event) p.registry in
    let known = record p { registry = canonical.registry } in
    if is_self_event event self_tgid
    then p
    else if not (allow event)
    then known
    else record known { sink = write fs canonical.event canonical.subject_process known.sink }

unfoldable pub on_decoded : ℕ → Arrival → Option Event → Pipeline → Pipeline
unfolding on_event
on_decoded self_tgid a none p = record p { metrics = increment_dropped p.metrics }
on_decoded self_tgid a (some event) p =
    on_event self_tgid a.proc a.fs event (record p { metrics = increment_decoded p.metrics })

-- The callback of `main`.
unfoldable pub on_raw : ℕ → Arrival → Pipeline → Pipeline
unfolding on_decoded
on_raw self_tgid a p =
    on_decoded self_tgid a (decode a.raw) (record p { metrics = increment_received p.metrics })

-- Records one after the other.
unfoldable pub on_all : ℕ → List Arrival → Pipeline → Pipeline
unfolding on_raw
on_all self_tgid [] p = p
on_all self_tgid (a ∷ rest) p = on_all self_tgid rest (on_raw self_tgid a p)
