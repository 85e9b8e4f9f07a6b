-- ===== src/Sink/Body.antt =====
-- src/sinks/json_sink.cpp: the text of a line. What is written to a stream with `<<` is a list of
-- pieces.
use Prim.Native.String.{String}
use e_trace_gen_e_bpfevent_t.Base.{
  ℕ, ℤ, pos, negsuc, ◌+◌, min, List, [], ◌∷◌, ◌++◌, Option, none, some, take, c_str, codes,
  to_string,
}
use e_trace_gen_e_bpfevent_t.Schema.{EventHeader, NetworkEndpoint}
use e_trace_gen_e_bpfevent_t.Registry.Entity.{ProcessEntity}
use e_trace_gen_e_bpfevent_t.Sink.Escape.{json_escape, bytes_to_hex}
use e_trace_gen_e_bpfevent_t.Sink.Labels.{label, event_type_names}

-- A literal, a number, a signed number, a text through `JsonEscape`, bytes through `BytesToHex`, or
-- the name of a number.
pub data Piece : Type 0 where
  literal : String → Piece
  number : ℕ → Piece
  integer : ℤ → Piece
  escaped : List ℕ → Piece
  hex : List ℕ → Piece
  named : List (ℕ × String) → ℕ → Piece

unfoldable pub integer_text : ℤ → List ℕ
integer_text (pos n) = to_string n
integer_text (negsuc n) = 45 ∷ to_string (n + 1)

unfoldable pub piece_text : Piece → List ℕ
unfolding integer_text label json_escape bytes_to_hex
piece_text (literal s) = codes s
piece_text (number n) = to_string n
piece_text (integer z) = integer_text z
piece_text (escaped s) = json_escape s
piece_text (hex bytes) = bytes_to_hex bytes
piece_text (named names n) = codes (label names n)

unfoldable pub text_of : List Piece → List ℕ
unfolding piece_text
text_of [] = []
text_of (p ∷ ps) = piece_text p ++ text_of ps

-- `WriteHeader`
abbrev pub write_header : EventHeader → List Piece
write_header h =
    literal "\"ts_ns\":"
    ∷ number h.ts_ns
    ∷ literal ",\"type\":\""
    ∷ named event_type_names h.type
    ∷ literal "\",\"pid\":"
    ∷ number h.pid
    ∷ literal ",\"tgid\":"
    ∷ number h.tgid
    ∷ literal ",\"ppid\":"
    ∷ number h.ppid
    ∷ literal ",\"uid\":"
    ∷ number h.uid
    ∷ literal ",\"gid\":"
    ∷ number h.gid
    ∷ literal ",\"comm\":\""
    ∷ escaped (c_str h.comm)
    ∷ literal "\""
    ∷ []

-- A field of the resolved entity, or what stands for it without one.
abbrev pub text_from : (ProcessEntity → List ℕ) → Option ProcessEntity → List ℕ
text_from field none = []
text_from field (some e) = field e

abbrev pub ticks_from : Option ProcessEntity → ℕ
ticks_from none = 0
ticks_from (some e) = e.start_time_ticks

-- `WriteProcessInfo`
abbrev pub write_process_info : EventHeader → Option ProcessEntity → List Piece
write_process_info h pe =
    literal ",\"process_info\":{\"pid\":"
    ∷ number h.pid
    ∷ literal ",\"tgid\":"
    ∷ number h.tgid
    ∷ literal ",\"ppid\":"
    ∷ number h.ppid
    ∷ literal ",\"uid\":"
    ∷ number h.uid
    ∷ literal ",\"gid\":"
    ∷ number h.gid
    ∷ literal ",\"comm\":\""
    ∷ escaped (c_str h.comm)
    ∷ literal "\",\"exec_path\":\""
    ∷ escaped (text_from (λ e. e.exec_path) pe)
    ∷ literal "\",\"cmdline\":\""
    ∷ escaped (text_from (λ e. e.cmdline) pe)
    ∷ literal "\",\"cwd\":\""
    ∷ escaped (text_from (λ e. e.cwd) pe)
    ∷ literal "\",\"parent_comm\":\""
    ∷ escaped (text_from (λ e. e.parent_comm) pe)
    ∷ literal "\",\"start_time_ticks\":"
    ∷ number (ticks_from pe)
    ∷ literal "}"
    ∷ []

-- `WriteNetworkEndpoint`, at its two labels; 16 is the size of the address buffer.
abbrev pub write_network_endpoint : String → NetworkEndpoint → List Piece
write_network_endpoint name ep =
    literal ",\""
    ∷ literal name
    ∷ literal "_family\":"
    ∷ number ep.family
    ∷ literal ",\""
    ∷ literal name
    ∷ literal "_port\":"
    ∷ number ep.port
    ∷ literal ",\""
    ∷ literal name
    ∷ literal "_addr_len\":"
    ∷ number ep.addr_len
    ∷ literal ",\""
    ∷ literal name
    ∷ literal "_addr\":\""
    ∷ hex (take (min ep.addr_len 16) ep.addr)
    ∷ literal "\",\""
    ∷ literal name
    ∷ literal "_path\":\""
    ∷ escaped (c_str ep.path)
    ∷ literal "\""
    ∷ []
