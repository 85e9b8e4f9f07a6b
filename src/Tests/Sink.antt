-- ===== src/Tests/Sink.antt =====
-- Lines of JSON and the file of the sink at concrete events.
use e_trace_gen_e_bpfevent_t.Base.{
  ltb, ◌&&◌, Bool, All, ◌≤◌, leb, ◌+◌, ◌^◌, ◌<◌, ℕ, ◌≡◌, refl, true, false, List, [], ◌∷◌, Option,
  none, some, codes, length, arith, to_string, decimal,
}
use e_trace_gen_e_bpfevent_t.Schema.{Event}
use e_trace_gen_e_bpfevent_t.Model.Canonical.{CanonicalEvent}
use e_trace_gen_e_bpfevent_t.Model.Normalizer.{common_event}
use e_trace_gen_e_bpfevent_t.Registry.Entity.{ProcessEntity}
use e_trace_gen_e_bpfevent_t.Registry.Table.{new_entity}
use e_trace_gen_e_bpfevent_t.Sink.Escape.{escape_byte, json_escape, bytes_to_hex}
use e_trace_gen_e_bpfevent_t.Sink.Body.{piece_text, text_of, integer_text}
use e_trace_gen_e_bpfevent_t.Sink.Labels.{label}
use e_trace_gen_e_bpfevent_t.Sink.Line.{serialize}
use e_trace_gen_e_bpfevent_t.Sink.Json.{Place, Reading, scan, read}
use e_trace_gen_e_bpfevent_t.Sink.Lines.{serialize-scan}
use e_trace_gen_e_bpfevent_t.Sink.ReadBack.{read-json_escape}
use e_trace_gen_e_bpfevent_t.Sink.File.{
  write_line, write, rotate, rotate_if_needed, maybe_flush, force_flush, flush, append_line,
  stream_line, JsonSink, FileSystem, open_sink, write_all,
}
use e_trace_gen_e_bpfevent_t.Sink.Stream.{IsCounting, IsHealthy}
use e_trace_gen_e_bpfevent_t.Sink.FileHistory.{
  write_all-bounded, rotated_text, write_all-lost, lines_of, joined, write_all-lines,
}
use e_trace_gen_e_bpfevent_t.Tests.Setup.{file_slot}

-- A path with a quote, a backslash, a newline and a control byte.
abbrev odd_path : List ℕ
odd_path = 34 ∷ 92 ∷ 10 ∷ 1 ∷ 97 ∷ []

odd_escaped : json_escape odd_path ≡ codes "\\\"\\\\\\n\\u0001a"
unfolding json_escape escape_byte
odd_escaped = refl

hex_written : bytes_to_hex (192 ∷ 168 ∷ 0 ∷ 1 ∷ []) ≡ codes "c0a80001"
unfolding bytes_to_hex
hex_written = refl

read-json_escape_example : read Reading.plain (json_escape odd_path) ≡ some odd_path
read-json_escape_example = read-json_escape odd_path

abbrev opened : CanonicalEvent
opened = common_event (Event.file (record file_slot { kind = 1; path_a = odd_path }))

abbrev shell : ProcessEntity
shell = record (new_entity 1) { exec_path = codes "/bin/sh" }

serialize-scan_example : scan Place.start (serialize opened (some shell)) ≡ Place.ended
serialize-scan_example = serialize-scan opened (some shell)

not_json : scan Place.start (codes "{\"a\":\"b\"\n") ≡ Place.rejected
unfolding scan
not_json = refl

-- A disk on which everything works, 1 ms after the start.
abbrev pub disk : FileSystem
disk = record {
  now_mono_ns = 1000000;
  removes = true;
  opens_trunc = true;
  opens_append = true;
  write_fails = none;
  flush_fails = none;
}

-- A sink with a limit of one kilobyte: the second line does not fit.
abbrev pub small_sink : JsonSink
small_sink = open_sink disk true [] 1024

abbrev two_writes : List (FileSystem × CanonicalEvent × Option ProcessEntity)
two_writes = (disk, opened, some shell) ∷ (disk, opened, none) ∷ []

small_sink-IsCounting : IsCounting small_sink
unfolding open_sink
small_sink-IsCounting = (refl, refl)

small_sink-empty : length small_sink.written ≡ 0
unfolding open_sink
small_sink-empty = refl

below : (m n : ℕ) → m ≡ 0 → leb n 5000 ≡ true → m + n < 2 ^ 64
below m n empty fits = ground arith

ltb_below : (m n : ℕ) → ltb m n ≡ true → m < n
ltb_below m n h = ground arith

two_lines : leb (length (joined (lines_of two_writes))) 5000 ≡ true
unfolding serialize piece_text json_escape escape_byte decimal to_string integer_text bytes_to_hex
    label text_of
two_lines = refl

small_sink-IsHealthy : IsHealthy small_sink
unfolding open_sink
small_sink-IsHealthy = (refl, refl, refl)

write_all-lines_example :
    IsHealthy (write_all two_writes small_sink)
    × ((write_all two_writes small_sink).written
        ≡ rotated_text small_sink.max_file_size_bytes small_sink.written (lines_of two_writes))
write_all-lines_example =
    write_all-lines two_writes small_sink small_sink-IsHealthy
      ((refl, refl, refl, refl), ((refl, refl, refl, refl), tt))
      (below (length small_sink.written) (length (joined (lines_of two_writes))) small_sink-empty
        two_lines)

-- A sink without a limit whose disk is full after 100 bytes of the first line.
abbrev failed_sink : JsonSink
failed_sink =
    write (record disk { write_fails = some 100 }) opened (some shell) (open_sink disk true [] 0)

failed_sink-bad : (failed_sink.ready ≡ true) × (failed_sink.good ≡ false)
unfolding open_sink write rotate_if_needed maybe_flush flush append_line stream_line
failed_sink-bad = (refl, refl)

failed_sink-counts :
    ltb (failed_sink.current_file_size_bytes + length (joined (lines_of two_writes))) (2 ^ 64)
    ≡ true
unfolding open_sink write write_line rotate_if_needed maybe_flush flush append_line stream_line
    serialize piece_text json_escape escape_byte decimal to_string integer_text bytes_to_hex label
    text_of
failed_sink-counts = refl

failed_sink-unlimited : failed_sink.max_file_size_bytes ≡ 0
unfolding open_sink write write_line rotate_if_needed maybe_flush flush append_line stream_line
failed_sink-unlimited = refl

write_all-lost_example :
    ((write_all two_writes failed_sink).ready ≡ true)
    × ((write_all two_writes failed_sink).written ≡ failed_sink.written)
write_all-lost_example =
    write_all-lost two_writes failed_sink failed_sink-bad.0 failed_sink-bad.1
      (ltb_below _ _ failed_sink-counts) (λ limited. absurd (limited failed_sink-unlimited))

all_below : ℕ → List (List ℕ) → Bool
all_below n [] = true
all_below n (l ∷ lines) = leb (length l) n && all_below n lines

All-short :
    (n : ℕ) (lines : List (List ℕ)) → all_below n lines ≡ true → All (λ l. length l ≤ n) lines
unfolding all_below
All-short n [] h = tt
All-short n (l ∷ lines) h = (ground arith, All-short n lines (ground arith))

lines_short : all_below 1024 (lines_of two_writes) ≡ true
unfolding all_below serialize piece_text json_escape escape_byte decimal to_string integer_text
    bytes_to_hex label text_of
lines_short = refl

still_ready : (write_all two_writes small_sink).ready ≡ true
unfolding open_sink write_all write rotate_if_needed rotate maybe_flush force_flush serialize
    piece_text json_escape escape_byte decimal to_string integer_text bytes_to_hex label text_of
still_ready = refl

write_all-bounded_example : length (write_all two_writes small_sink).written ≤ 1024
unfolding open_sink
write_all-bounded_example =
    write_all-bounded two_writes small_sink small_sink-IsCounting
      (below (length small_sink.written) (length (joined (lines_of two_writes))) small_sink-empty
        two_lines)
      (omega arith) (omega arith) (All-short 1024 (lines_of two_writes) lines_short) still_ready
