-- ===== src/Sink/Stream.antt =====
-- The stream of the sink: what a flush and the write of a line do to it.
use e_trace_gen_e_bpfevent_t.Base.{
  ℕ, ◌+◌, ◌-◌, ◌^◌, ◌≤◌, ◌≡◌, refl, true, false, not, ltb, ◌&&◌, List, ◌++◌, length, length-append,
  u64, arith, if_keeps, option_keeps, none, take, length-take,
}
use e_trace_gen_e_bpfevent_t.Sink.File.{
  flush, JsonSink, FileSystem, maybe_flush, force_flush, flush, stream_line, append_line,
}

-- The sink is ready, and counts the bytes of its file.
abbrev pub IsCounting : JsonSink → Type 0
IsCounting k = (k.ready ≡ true) × (k.current_file_size_bytes ≡ length k.written)

-- The sink is ready, its stream has not failed, and it counts the bytes of its file.
abbrev pub IsHealthy : JsonSink → Type 0
IsHealthy k = (k.ready ≡ true) × (k.good ≡ true) × (k.current_file_size_bytes ≡ length k.written)

-- The sink is ready, and has counted at least the bytes of its file.
abbrev pub IsCovering : JsonSink → Type 0
IsCovering k = (k.ready ≡ true) × (length k.written ≤ k.current_file_size_bytes)

-- Everything that the sink asks of the system during a call succeeds.
abbrev pub IsWorking : FileSystem → Type 0
IsWorking fs =
    (fs.opens_trunc ≡ true)
    × (fs.opens_append ≡ true)
    × (fs.write_fails ≡ none)
    × (fs.flush_fails ≡ none)

-- What a flush, a write and the end of a call leave alone.
abbrev pub IsFlushed : JsonSink → JsonSink → Type 0
IsFlushed k r =
    (r.ready ≡ k.ready)
    × (length r.written ≤ length k.written)
    × (r.current_file_size_bytes ≡ k.current_file_size_bytes)
    × (r.max_file_size_bytes ≡ k.max_file_size_bytes)

pub flush-IsFlushed : (fs : FileSystem) (k : JsonSink) → IsFlushed k (flush fs k)
unfolding flush
flush-IsFlushed fs k =
    if_keeps (IsFlushed k) (not k.good) (refl, omega arith, refl, refl)
      (option_keeps (IsFlushed k) fs.flush_fails (refl, omega arith, refl, refl)
        (λ n. (refl, length-take (k.flushed + n) k.written, refl, refl)))

pub maybe_flush-IsFlushed : (fs : FileSystem) (k : JsonSink) → IsFlushed k (maybe_flush fs k)
unfolding maybe_flush
maybe_flush-IsFlushed fs k =
    if_keeps (IsFlushed k) (not k.is_open) (refl, omega arith, refl, refl)
      (if_keeps (IsFlushed k)
        (ltb k.pending_records_since_flush 256
          && ltb (u64 (fs.now_mono_ns + (2 ^ 64 - k.last_flush_mono_ns))) 250000000)
        (refl, omega arith, refl, refl) (flush-IsFlushed fs k))

pub force_flush-ready : (fs : FileSystem) (k : JsonSink) → (force_flush fs k).ready ≡ k.ready
unfolding force_flush
force_flush-ready fs k =
    if_keeps (λ (r : JsonSink). r.ready ≡ k.ready) (not k.is_open) refl (flush-IsFlushed fs k).0

pub force_flush-max :
    (fs : FileSystem) (k : JsonSink)
    → (force_flush fs k).max_file_size_bytes ≡ k.max_file_size_bytes
unfolding force_flush
force_flush-max fs k =
    if_keeps (λ (r : JsonSink). r.max_file_size_bytes ≡ k.max_file_size_bytes) (not k.is_open) refl
      (flush-IsFlushed fs k).3

-- A flush that succeeds changes nothing that was written.
abbrev pub IsUntouched : JsonSink → JsonSink → Type 0
IsUntouched k r = (r.good ≡ k.good) × (r.written ≡ k.written)

pub maybe_flush-IsUntouched :
    (fs : FileSystem) (k : JsonSink) → fs.flush_fails ≡ none → IsUntouched k (maybe_flush fs k)
unfolding maybe_flush flush
maybe_flush-IsUntouched fs k works =
    if_keeps (IsUntouched k) (not k.is_open) (refl, refl)
      (if_keeps (IsUntouched k)
        (ltb k.pending_records_since_flush 256
          && ltb (u64 (fs.now_mono_ns + (2 ^ 64 - k.last_flush_mono_ns))) 250000000)
        (refl, refl)
        (if_keeps
          (λ (r : JsonSink).
            IsUntouched k
              (record r { pending_records_since_flush = 0; last_flush_mono_ns = fs.now_mono_ns }))
          (not k.good) (refl, refl) (rw works (refl, refl))))

-- A write of a line: the stream takes at most its bytes, and they are counted.
abbrev pub IsTaken : List ℕ → JsonSink → JsonSink → Type 0
IsTaken line k r =
    (r.ready ≡ k.ready)
    × (length r.written ≤ length k.written + length line)
    × (r.max_file_size_bytes ≡ k.max_file_size_bytes)

pub append_line-IsTaken :
    (fs : FileSystem) (line : List ℕ) (k : JsonSink) → IsTaken line k (append_line fs line k)
unfolding append_line stream_line
append_line-IsTaken fs line k =
    let P : JsonSink → Type 0 = λ r. IsTaken line k (record r {
      current_file_size_bytes = u64 (k.current_file_size_bytes + length line);
      pending_records_since_flush = u64 (k.pending_records_since_flush + 1);
    }) in
    if_keeps P (not k.good) (refl, omega arith, refl)
      (option_keeps P fs.write_fails (refl, omega (arith, length-append k.written line), refl)
        (λ n.
          (refl, omega (arith, length-append k.written (take n line), length-take n line), refl)))

pub append_line-size :
    (fs : FileSystem) (line : List ℕ) (k : JsonSink)
    → (append_line fs line k).current_file_size_bytes
      ≡ u64 (k.current_file_size_bytes + length line)
unfolding append_line
append_line-size fs line k = refl

pub append_line-working :
    (fs : FileSystem) (line : List ℕ) (k : JsonSink)
    → k.good ≡ true
    → fs.write_fails ≡ none
    → ((append_line fs line k).good ≡ true) × ((append_line fs line k).written ≡ k.written ++ line)
unfolding append_line stream_line
append_line-working fs line k good works = rw (good, works) (good, refl)

-- A stream that has failed takes nothing.
pub append_line-failed :
    (fs : FileSystem) (line : List ℕ) (k : JsonSink)
    → k.good ≡ false
    → ((append_line fs line k).good ≡ false) × ((append_line fs line k).written ≡ k.written)
unfolding append_line stream_line
append_line-failed fs line k bad = rw bad (refl, refl)
