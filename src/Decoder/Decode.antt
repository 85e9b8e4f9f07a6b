-- ===== src/Decoder/Decode.antt =====
-- src/decoder/decoder.cpp. The size of the span is the length of the list; a header is read from it
-- only where it is long enough.
use e_trace_gen_e_bpfevent_t.Base.{
  ℕ, Bool, ◌&&◌, ◌||◌, ◌==◌, ltb, leb, if◌then◌else◌, List, Option, none, some, length,
}
use e_trace_gen_e_bpfevent_t.Schema.{
  EventHeader, Event, sizeof_event_header, sizeof_process_event, sizeof_file_event,
  sizeof_syscall_event, sizeof_network_event,
}
use e_trace_gen_e_bpfevent_t.Schema.Kinds.{
  event_type_process, event_type_file, event_type_syscall, event_type_network,
}
use e_trace_gen_e_bpfevent_t.Decoder.Layout.{decode_fields}
use e_trace_gen_e_bpfevent_t.Decoder.Structs.{
  header_layout, process_layout, file_layout, syscall_layout, network_layout, to_header, to_process,
  to_file, to_syscall, to_network,
}

unfoldable pub read_header : List ℕ → EventHeader
read_header mem = to_header (decode_fields header_layout mem)

-- Whether the header has the type and the size of a struct that the bytes hold.
abbrev pub is_whole : ℕ → ℕ → EventHeader → ℕ → Bool
is_whole type size hdr available = hdr.type == type && hdr.size == size && leb size available

-- `Decoder::Decode`, given the header
unfoldable pub decode_as : EventHeader → List ℕ → Option Event
decode_as hdr mem =
    if ltb (length mem) sizeof_event_header
    then none
    else if ltb hdr.size sizeof_event_header || ltb (length mem) hdr.size
    then none
    else if is_whole event_type_process sizeof_process_event hdr (length mem)
    then some (Event.process (to_process (decode_fields process_layout mem)))
    else if is_whole event_type_file sizeof_file_event hdr (length mem)
    then some (Event.file (to_file (decode_fields file_layout mem)))
    else if is_whole event_type_syscall sizeof_syscall_event hdr (length mem)
    then some (Event.syscall (to_syscall (decode_fields syscall_layout mem)))
    else if is_whole event_type_network sizeof_network_event hdr (length mem)
    then some (Event.network (to_network (decode_fields network_layout mem)))
    else none

unfoldable pub decode : List ℕ → Option Event
unfolding decode_as
decode mem = decode_as (read_header mem) mem
