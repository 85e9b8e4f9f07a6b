-- ===== src/Sink/File.antt =====
-- src/sinks/json_sink.cpp: the file of the sink, its rotation and its flushes.
use e_trace_gen_e_bpfevent_t.Base.{
  ℕ, ◌+◌, ◌-◌, ◌^◌, Bool, true, false, not, ◌&&◌, ◌==◌, ltb, leb, if◌then◌else◌, List, [], ◌∷◌,
  ◌++◌, Option, none, some, take, length, u64,
}
use e_trace_gen_e_bpfevent_t.Model.Canonical.{CanonicalEvent}
use e_trace_gen_e_bpfevent_t.Registry.Entity.{ProcessEntity}
use e_trace_gen_e_bpfevent_t.Sink.Line.{serialize}

-- The stream has not failed while `good`. `written` is what it took since the file was opened empty,
-- or with what the file held before; `flushed` is how much of it a flush has passed on.
pub record JsonSink : Type 0 where
  pub is_open : Bool
  pub good : Bool
  pub written : List ℕ
  pub flushed : ℕ
  pub max_file_size_bytes : ℕ
  pub current_file_size_bytes : ℕ
  pub pending_records_since_flush : ℕ
  pub last_flush_mono_ns : ℕ
  pub ready : Bool

-- What the system does during one call: the clock, and whether the file can be removed, and opened
-- again to truncate it and to append to it. A write and a flush pass all bytes on (none), or fail
-- after some of them.
pub record FileSystem : Type 0 where
  pub now_mono_ns : ℕ
  pub removes : Bool
  pub opens_trunc : Bool
  pub opens_append : Bool
  pub write_fails : Option ℕ
  pub flush_fails : Option ℕ

-- `OpenFileAppend` of the constructor, for a file that holds `old` (nothing if there is none) and
-- whose size can be read or not.
unfoldable pub open_sink : FileSystem → Bool → List ℕ → ℕ → JsonSink
open_sink fs sized old max_file_size_bytes = record {
  is_open = fs.opens_append;
  good = fs.opens_append;
  written = old;
  flushed = length old;
  max_file_size_bytes = max_file_size_bytes;
  current_file_size_bytes = if sized then u64 (length old) else 0;
  pending_records_since_flush = 0;
  last_flush_mono_ns = fs.now_mono_ns;
  ready = fs.opens_append;
}

-- `file_out_.flush()`: a stream that has failed does nothing. What a flush that fails does not pass on
-- is lost.
unfoldable pub flush : FileSystem → JsonSink → JsonSink
flush fs k = if not k.good then k else elim fs.flush_fails [
  | none ↦ record k { flushed = length k.written }
  | some n ↦ record k {
    good = false;
    written = take (k.flushed + n) k.written;
    flushed = length (take (k.flushed + n) k.written);
  }
]

-- `ForceFlush`
unfoldable pub force_flush : FileSystem → JsonSink → JsonSink
unfolding flush
force_flush fs k = if not k.is_open then k else record (flush fs k) {
  pending_records_since_flush = 0;
  last_flush_mono_ns = fs.now_mono_ns;
}

-- `MaybeFlush`: every 256 records or 250 ms. The subtraction wraps at 64 bits.
unfoldable pub maybe_flush : FileSystem → JsonSink → JsonSink
unfolding flush
maybe_flush fs k =
    if not k.is_open
    then k
    else if ltb k.pending_records_since_flush 256
        && ltb (u64 (fs.now_mono_ns + (2 ^ 64 - k.last_flush_mono_ns))) 250000000
    then k
    else record (flush fs k) {
      pending_records_since_flush = 0;
      last_flush_mono_ns = fs.now_mono_ns;
    }

-- The file is closed, removed, and opened again; a truncating open empties a file that could not be
-- removed. An open that succeeds clears the failure of the stream.
unfoldable pub rotate : FileSystem → JsonSink → Bool × JsonSink
unfolding force_flush
rotate fs k =
    let closed = force_flush fs k in
    let removed = record closed {
      is_open = false;
      good = false;
      written = if fs.removes then [] else closed.written;
      flushed = if fs.removes then 0 else length closed.written;
      current_file_size_bytes = 0;
    } in
    if not fs.opens_trunc then (false, removed) else (
      fs.opens_append,
      record removed {
        is_open = fs.opens_append;
        good = fs.opens_append;
        written = [];
        flushed = 0;
      },
    )

-- `RotateIfNeeded`
unfoldable pub rotate_if_needed : FileSystem → ℕ → JsonSink → Bool × JsonSink
unfolding rotate
rotate_if_needed fs next_record_bytes k =
    if k.max_file_size_bytes == 0
    then (true, k)
    else if leb (u64 (k.current_file_size_bytes + next_record_bytes)) k.max_file_size_bytes
    then (true, k)
    else rotate fs k

-- `file_out_ << serialized`: a stream that has failed takes nothing, and one that fails now may have
-- taken a part of the line.
unfoldable pub stream_line : FileSystem → List ℕ → JsonSink → JsonSink
stream_line fs line k = if not k.good then k else elim fs.write_fails [
  | none ↦ record k { written = k.written ++ line }
  | some n ↦ record k { good = false; written = k.written ++ take n line }
]

-- The record that `Write` appends. It is counted whatever became of it.
unfoldable pub append_line : FileSystem → List ℕ → JsonSink → JsonSink
unfolding stream_line
append_line fs line k = record (stream_line fs line k) {
  current_file_size_bytes = u64 (k.current_file_size_bytes + length line);
  pending_records_since_flush = u64 (k.pending_records_since_flush + 1);
}

unfoldable pub write_line : FileSystem → List ℕ → JsonSink → JsonSink
unfolding rotate_if_needed append_line maybe_flush
write_line fs line k =
    let rotated = rotate_if_needed fs (length line) k in
    if not rotated.0
    then record (rotated.1) { ready = false }
    else maybe_flush fs (append_line fs line rotated.1)

-- `Write`: the event has its record, as the pipeline gives it.
unfoldable pub write : FileSystem → CanonicalEvent → Option ProcessEntity → JsonSink → JsonSink
unfolding write_line
write fs event pe k = if not k.ready then k else write_line fs (serialize event pe) k

-- Events in turn, each with what the system does during its write.
unfoldable pub write_all :
    List (FileSystem × CanonicalEvent × Option ProcessEntity) → JsonSink → JsonSink
unfolding write
write_all [] k = k
write_all ((fs, event, pe) ∷ rest) k = write_all rest (write fs event pe k)
