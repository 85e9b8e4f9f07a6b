-- ===== src/Sink/Rotation.antt =====
-- The rotation of the sink's file, and the write of one line.
use e_trace_gen_e_bpfevent_t.Base.{
  ℕ, ◌+◌, ◌^◌, ◌≤◌, ◌<◌, ◌≡◌, ◌≢◌, ◌⊎◌, inl, inr, refl, ap, ◌∙◌, true, false, ◌==◌, leb, List, [],
  length, u64, Bool-cases, arith,
}
use e_trace_gen_e_bpfevent_t.Sink.File.{
  JsonSink, FileSystem, maybe_flush, force_flush, rotate_if_needed, append_line, write_line,
}
use e_trace_gen_e_bpfevent_t.Sink.Stream.{
  IsCovering, maybe_flush-IsFlushed, append_line-IsTaken, append_line-size,
}

-- Rotation leaves the sink as it is, when the line fits; or empties it; or fails.
pub rotate_cases :
    (fs : FileSystem) (n : ℕ) (k : JsonSink)
    → ((rotate_if_needed fs n k ≡ (true, k))
        × (k.max_file_size_bytes ≢ 0 → u64 (k.current_file_size_bytes + n) ≤ k.max_file_size_bytes))
      ⊎ (((rotate_if_needed fs n k).0 ≡ true)
            × ((rotate_if_needed fs n k).1.written ≡ [])
            × ((rotate_if_needed fs n k).1.current_file_size_bytes ≡ 0)
            × ((rotate_if_needed fs n k).1.ready ≡ k.ready)
            × ((rotate_if_needed fs n k).1.good ≡ true)
            × (k.max_file_size_bytes ≢ 0)
            × (k.max_file_size_bytes < u64 (k.current_file_size_bytes + n))
            × ((rotate_if_needed fs n k).1.max_file_size_bytes ≡ k.max_file_size_bytes)
          ⊎ ((rotate_if_needed fs n k).0 ≡ false))
unfolding rotate_if_needed force_flush
rotate_cases fs n k = elim (Bool-cases (k.max_file_size_bytes == 0)) [
  | inl unlimited ↦ inl (ground arith, ground arith)
  | inr limited ↦
      elim (Bool-cases (leb (u64 (k.current_file_size_bytes + n)) k.max_file_size_bytes)) [
        | inl fits ↦ inl (ground arith, ground arith)
        | inr full ↦ elim (Bool-cases fs.opens_trunc) [
          | inr fails ↦ inr (inr ground arith)
          | inl opens ↦ elim (Bool-cases fs.opens_append) [
            | inl again ↦ inr (
                inl (
                  ground arith,
                  ground arith,
                  ground arith,
                  ground arith,
                  ground arith,
                  ground arith,
                  ground arith,
                  ground arith,
                ))
            | inr fails ↦ inr (inr ground arith)
          ]
        ]
      ]
]

write_line_fails :
    (fs : FileSystem) (line : List ℕ) (k : JsonSink)
    → (rotate_if_needed fs (length line) k).0 ≡ false
    → (write_line fs line k).ready ≡ false
unfolding write_line
write_line_fails fs line k fails = rw fails refl

pub write_line_goes :
    (fs : FileSystem) (line : List ℕ) (k : JsonSink)
    → (rotate_if_needed fs (length line) k).0 ≡ true
    → write_line fs line k
      ≡ maybe_flush fs (append_line fs line (rotate_if_needed fs (length line) k).1)
unfolding write_line
write_line_goes fs line k goes = rw goes refl

-- A line is counted, within the limit; or the file starts anew with it; or the sink gives up.
abbrev pub IsStep : List ℕ → JsonSink → JsonSink → Type 0
IsStep line k k' =
    (k'.ready ≡ false)
    ⊎ IsCovering k'
      × (k'.max_file_size_bytes ≡ k.max_file_size_bytes)
      × (((k'.current_file_size_bytes ≡ k.current_file_size_bytes + length line)
            × (k.max_file_size_bytes ≢ 0 → k'.current_file_size_bytes ≤ k.max_file_size_bytes))
          ⊎ (k'.current_file_size_bytes ≡ length line))

-- What a write makes of a sink that has room or is empty.
appended-IsCovering :
    (fs : FileSystem) (line : List ℕ) (k : JsonSink)
    → IsCovering k
    → k.current_file_size_bytes + length line < 2 ^ 64
    → let k' = maybe_flush fs (append_line fs line k) in
      IsCovering k'
      × (k'.max_file_size_bytes ≡ k.max_file_size_bytes)
      × (k'.current_file_size_bytes ≡ k.current_file_size_bytes + length line)
appended-IsCovering fs line k (ready, covers) space =
    let taken = append_line-IsTaken fs line k in
    let flushed = maybe_flush-IsFlushed fs (append_line fs line k) in
    let size = append_line-size fs line k in
    (
      (
        flushed.0 ∙ taken.0 ∙ ready,
        omega (arith, flushed.1, flushed.2, taken.1, size, space, covers),
      ),
      flushed.3 ∙ taken.2,
      omega (arith, flushed.2, size, space),
    )

pub write_line-IsStep :
    (fs : FileSystem) (line : List ℕ) (k : JsonSink)
    → IsCovering k
    → k.current_file_size_bytes + length line < 2 ^ 64
    → IsStep line k (write_line fs line k)
write_line-IsStep fs line k covering space =
    let r = (rotate_if_needed fs (length line) k).1 in
    elim (rotate_cases fs (length line) k) [
      | inl (same, fits) ↦
          let (still, limit, size) = appended-IsCovering fs line k covering space in
          rw (write_line_goes fs line k (ap (λ p. p.0) same), same)
            (inr (still, limit, inl (size, λ limited. omega (arith, fits limited, size, space))))
      | inr (inl (goes, empty, none_yet, ready, good, limited, full, limit)) ↦
          let (still, limit', size) =
            appended-IsCovering fs line r
              (ready ∙ covering.0, omega (arith, ap length empty, none_yet))
              (omega (arith, none_yet, space)) in
          rw (write_line_goes fs line k goes)
            (inr (still, limit' ∙ limit, inr (omega (arith, size, none_yet))))
      | inr (inr fails) ↦ inl (write_line_fails fs line k fails)
    ]
