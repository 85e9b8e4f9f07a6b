-- ===== src/Sink/Texts.antt =====
-- The text of the sink's file after the write of one line, and a write to a stream that has failed.
use e_trace_gen_e_bpfevent_t.Base.{
  ℕ, ◌+◌, ◌-◌, ◌^◌, ◌≤◌, ◌<◌, ◌≡◌, ◌≢◌, inl, inr, refl, ap, sym, ◌∙◌, true, false, not, ◌==◌, ltb,
  ◌&&◌, List, ◌++◌, length, length-append, u64, Bool-cases, arith, if_keeps, if_both, if◌then◌else◌,
}
use e_trace_gen_e_bpfevent_t.Sink.File.{
  flush, JsonSink, FileSystem, maybe_flush, force_flush, rotate_if_needed, flush, append_line,
  write_line,
}
use e_trace_gen_e_bpfevent_t.Sink.Stream.{
  IsHealthy, IsWorking, maybe_flush-IsFlushed, maybe_flush-IsUntouched, append_line-IsTaken,
  append_line-size, append_line-working, append_line-failed,
}
use e_trace_gen_e_bpfevent_t.Sink.Rotation.{rotate_cases, write_line_goes}

rotate-working :
    (fs : FileSystem) (n : ℕ) (k : JsonSink) → IsWorking fs → (rotate_if_needed fs n k).0 ≡ true
unfolding rotate_if_needed force_flush
rotate-working fs n k (trunc, again, writes, flushes) = ground arith

-- The file's text after a line, with a limit: the line starts the file anew exactly when it does not
-- fit behind the text.
abbrev pub next_text : ℕ → List ℕ → List ℕ → List ℕ
next_text limit text line =
    if not (limit == 0) && ltb limit (length text + length line) then line else text ++ line

ltb_lem : (a b : ℕ) → ltb a b ≡ true → a < b
ltb_lem a b h = ground arith

next_text-fits :
    (limit : ℕ) (text line : List ℕ)
    → (limit ≢ 0 → length text + length line ≤ limit)
    → text ++ line ≡ next_text limit text line
next_text-fits limit text line fits = elim (Bool-cases (limit == 0)) [
  | inl unlimited ↦ rw unlimited refl
  | inr limited ↦ elim (Bool-cases (ltb limit (length text + length line))) [
    | inl over ↦ absurd (omega (arith, fits (ground arith), ltb_lem _ _ over))
    | inr within ↦ rw (limited, within) refl
  ]
]

next_text-over :
    (limit : ℕ) (text line : List ℕ)
    → limit ≢ 0
    → limit < length text + length line
    → line ≡ next_text limit text line
next_text-over limit text line limited over = ground arith

-- A write that works, to a sink that has room or is empty.
appended-IsHealthy :
    (fs : FileSystem) (line : List ℕ) (k : JsonSink)
    → IsHealthy k
    → IsWorking fs
    → length k.written + length line < 2 ^ 64
    → let k' = maybe_flush fs (append_line fs line k) in
      IsHealthy k'
      × (k'.max_file_size_bytes ≡ k.max_file_size_bytes)
      × (k'.written ≡ k.written ++ line)
appended-IsHealthy fs line k (ready, good, counts) (trunc, again, writes, flushes) space =
    let taken = append_line-IsTaken fs line k in
    let added = append_line-working fs line k good writes in
    let flushed = maybe_flush-IsFlushed fs (append_line fs line k) in
    let same = maybe_flush-IsUntouched fs (append_line fs line k) flushes in
    let text = same.1 ∙ added.1 in
    (
      (
        flushed.0 ∙ taken.0 ∙ ready,
        same.0 ∙ added.0,
        omega (
          arith,
          flushed.2,
          append_line-size fs line k,
          counts,
          space,
          length-append k.written line,
          ap length text,
        ),
      ),
      flushed.3 ∙ taken.2,
      text,
    )

pub write_line-working :
    (fs : FileSystem) (line : List ℕ) (k : JsonSink)
    → IsHealthy k
    → IsWorking fs
    → length k.written + length line < 2 ^ 64
    → IsHealthy (write_line fs line k)
      × ((write_line fs line k).max_file_size_bytes ≡ k.max_file_size_bytes)
      × ((write_line fs line k).written ≡ next_text k.max_file_size_bytes k.written line)
write_line-working fs line k counting works space =
    let r = (rotate_if_needed fs (length line) k).1 in
    elim (rotate_cases fs (length line) k) [
      | inl (same, fits) ↦
          let (still, limit, text) = appended-IsHealthy fs line k counting works space in
          rw (write_line_goes fs line k (ap (λ p. p.0) same), same)
            (
              still,
              limit,
              text
                  ∙ next_text-fits k.max_file_size_bytes k.written line
                      (λ limited. omega (arith, fits limited, counting.2, space)),
            )
      | inr (inl (goes, empty, none_yet, ready, good, limited, full, limit)) ↦
          let (still, limit', text) =
            appended-IsHealthy fs line r
              (ready ∙ counting.0, good, none_yet ∙ ap length (sym empty)) works
              (omega (arith, ap length empty, space)) in
          rw (write_line_goes fs line k goes) (
            still,
            limit' ∙ limit,
            text
                ∙ ap (λ w. w ++ line) empty
                ∙ next_text-over k.max_file_size_bytes k.written line limited
                    (omega (arith, full, counting.2, space)),
          )
      | inr (inr fails) ↦ absurd (cc (fails, rotate-working fs (length line) k works))
    ]

rotate_fits :
    (fs : FileSystem) (n : ℕ) (k : JsonSink)
    → (k.max_file_size_bytes ≢ 0 → u64 (k.current_file_size_bytes + n) ≤ k.max_file_size_bytes)
    → rotate_if_needed fs n k ≡ (true, k)
unfolding rotate_if_needed
rotate_fits fs n k fits = elim (Bool-cases (k.max_file_size_bytes == 0)) [
  | inl unlimited ↦ ground arith
  | inr limited ↦ let within = fits (ground arith) in ground arith
]

maybe_flush-failed :
    (fs : FileSystem) (k : JsonSink)
    → k.good ≡ false
    → ((maybe_flush fs k).good ≡ false) × ((maybe_flush fs k).written ≡ k.written)
unfolding maybe_flush flush
maybe_flush-failed fs k bad =
    let P : JsonSink → Type 0 = λ r. (r.good ≡ false) × (r.written ≡ k.written) in
    if_keeps P (not k.is_open) (bad, refl)
      (if_keeps P
        (ltb k.pending_records_since_flush 256
          && ltb (u64 (fs.now_mono_ns + (2 ^ 64 - k.last_flush_mono_ns))) 250000000)
        (bad, refl)
        (if_both (λ (r : JsonSink). (r.good ≡ false) × (r.written ≡ k.written)) (not k.good)
          (λ failed. (bad, refl)) (λ well. absurd (ground arith))))

-- A stream that has failed takes nothing more until the file is started anew.
pub write_line-failed :
    (fs : FileSystem) (line : List ℕ) (k : JsonSink)
    → k.ready ≡ true
    → k.good ≡ false
    → (k.max_file_size_bytes ≢ 0
        → u64 (k.current_file_size_bytes + length line) ≤ k.max_file_size_bytes)
    → let k' = write_line fs line k in
      (k'.ready ≡ true)
      × (k'.good ≡ false)
      × (k'.written ≡ k.written)
      × (k'.max_file_size_bytes ≡ k.max_file_size_bytes)
      × (k'.current_file_size_bytes ≡ u64 (k.current_file_size_bytes + length line))
write_line-failed fs line k ready bad fits =
    let taken = append_line-IsTaken fs line k in
    let lost = append_line-failed fs line k bad in
    let flushed = maybe_flush-IsFlushed fs (append_line fs line k) in
    let still = maybe_flush-failed fs (append_line fs line k) lost.0 in
    let same = rotate_fits fs (length line) k fits in
    rw (write_line_goes fs line k (ap (λ p. p.0) same), same)
      (
        flushed.0 ∙ taken.0 ∙ ready,
        still.0,
        still.1 ∙ lost.1,
        flushed.3 ∙ taken.2,
        flushed.2 ∙ append_line-size fs line k,
      )
