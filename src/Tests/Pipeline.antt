-- ===== src/Tests/Pipeline.antt =====
-- The decoder and the pipeline at concrete records.
use e_trace_gen_e_bpfevent_t.Base.{
  pos, ◌+◌, ◌≡◌, ◌≢◌, ◌++◌, ◌≤◌, refl, sym, subst, List, [], ◌∷◌, some, map, length, All, replicate,
  arith,
}
use e_trace_gen_e_bpfevent_t.Schema.{Event, EventHeader, header}
use e_trace_gen_e_bpfevent_t.Kernel.Sound.{IsTagged}
use e_trace_gen_e_bpfevent_t.Kernel.Call.{run, dispatch, Call, Tracepoint, run_all}
use e_trace_gen_e_bpfevent_t.Kernel.Process.{on_sched_fork}
use e_trace_gen_e_bpfevent_t.Kernel.Gate.{is_event_allowed, is_process_probe_enabled}
use e_trace_gen_e_bpfevent_t.Kernel.Reserve.{init_process_event}
use e_trace_gen_e_bpfevent_t.Registry.Table.{empty_registry}
use e_trace_gen_e_bpfevent_t.Decoder.Layout.{Fits}
use e_trace_gen_e_bpfevent_t.Decoder.Decode.{decode}
use e_trace_gen_e_bpfevent_t.Decoder.Encode.{encode, IsWire}
use e_trace_gen_e_bpfevent_t.Decoder.Accepted.{decode-encode, decode-IsTagged}
use e_trace_gen_e_bpfevent_t.Pipeline.Callback.{Pipeline, Arrival, on_all}
use e_trace_gen_e_bpfevent_t.Pipeline.Flow.{
  Delivery, arrival_of, IsObserved, on_all-counts, on_all-observe,
}
use e_trace_gen_e_bpfevent_t.Pipeline.EndToEnd.{kernel_to_sink}
use e_trace_gen_e_bpfevent_t.Tests.Setup.{
  syscall_slot, process_slot, roomy, roomy-IsMapHelpers, task_at, loaded, loaded-IsSound,
}
use e_trace_gen_e_bpfevent_t.Tests.Registry.{quiet}
use e_trace_gen_e_bpfevent_t.Tests.Sink.{disk, small_sink}

-- A finished `getpid` of process 7.
abbrev call_hdr : EventHeader
call_hdr = record (syscall_slot.hdr) { ts_ns = 500; type = 3; size = 96; pid = 7; tgid = 7 }

abbrev getpid_exit : Event
getpid_exit =
    Event.syscall (record syscall_slot { hdr = call_hdr; syscall_nr = pos 39; ret = pos 7 })

getpid_exit-IsWire : IsWire getpid_exit
unfolding IsWire Fits
getpid_exit-IsWire = ground arith

decode-encode_example : decode (encode getpid_exit ++ (1 ∷ 2 ∷ [])) ≡ some getpid_exit
decode-encode_example = decode-encode getpid_exit (1 ∷ 2 ∷ []) (refl, refl) getpid_exit-IsWire

decode-IsTagged_example :
    IsTagged getpid_exit × ((header getpid_exit).size ≤ length (encode getpid_exit ++ (1 ∷ 2 ∷ [])))
decode-IsTagged_example =
    decode-IsTagged (encode getpid_exit ++ (1 ∷ 2 ∷ [])) getpid_exit
      (decode-encode getpid_exit (1 ∷ 2 ∷ []) (refl, refl) getpid_exit-IsWire)

-- The collector is process 99 and has seen nothing.
abbrev fresh : Pipeline
fresh = record {
  registry = empty_registry;
  sink = small_sink;
  metrics = record { received = 0; decoded = 0; dropped = 0 };
}

abbrev delivered : List Delivery
delivered = record { event = getpid_exit; trailing = []; proc = quiet; fs = disk } ∷ []

-- A whole record, and three bytes.
abbrev arrivals : List Arrival
arrivals =
    record { raw = encode getpid_exit; proc = quiet; fs = disk }
    ∷ record { raw = 1 ∷ 2 ∷ 3 ∷ []; proc = quiet; fs = disk }
    ∷ []

on_all-counts_example :
    ((on_all 99 arrivals fresh).metrics.received ≡ 0 + 2)
    × ((on_all 99 arrivals fresh).metrics.decoded + (on_all 99 arrivals fresh).metrics.dropped
        ≡ (on_all 99 arrivals fresh).metrics.received)
on_all-counts_example = on_all-counts 99 arrivals fresh refl (omega arith)

on_all-observe_example : IsObserved 99 delivered fresh (on_all 99 (map arrival_of delivered) fresh)
on_all-observe_example =
    on_all-observe 99 delivered fresh (((refl, refl), getpid_exit-IsWire), tt) (omega arith)

-- Process 7 forks.
abbrev forks : List Call
forks = record { env = task_at 7 20 []; at = Tracepoint.sched_fork (pos 8) } ∷ []

abbrev forked_hdr : EventHeader
forked_hdr = record {
  ts_ns = 20;
  type = 1;
  size = 1120;
  pid = 7;
  tgid = 7;
  ppid = 1;
  uid = 1000;
  gid = 1000;
  comm = replicate 16 97;
}

abbrev forked : Event
forked = Event.process (record process_slot { hdr = forked_hdr; kind = 2; child_pid = 8 })

forks_submits : (run_all roomy forks loaded).events ≡ forked ∷ []
unfolding run_all run dispatch on_sched_fork is_event_allowed is_process_probe_enabled
    init_process_event
forks_submits = refl

forked-IsWire : IsWire forked
unfolding IsWire Fits
forked-IsWire = ground arith

abbrev fork_delivered : List Delivery
fork_delivered = record { event = forked; trailing = []; proc = quiet; fs = disk } ∷ []

kernel_to_sink_example :
    IsObserved 99 fork_delivered fresh (on_all 99 (map arrival_of fork_delivered) fresh)
    × All (λ d. (header d.event).tgid ≢ 99) fork_delivered
kernel_to_sink_example =
    kernel_to_sink roomy-IsMapHelpers forks loaded fork_delivered fresh loaded-IsSound refl
      (omega arith) (sym forks_submits) (subst (All IsWire) (sym forks_submits) (forked-IsWire, tt))
      (omega arith)
