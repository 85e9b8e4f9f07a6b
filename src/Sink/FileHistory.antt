-- ===== src/Sink/FileHistory.antt =====
-- What the file of the sink holds after any events.
use e_trace_gen_e_bpfevent_t.Base.{
  subst, All, ℕ, ◌+◌, ◌^◌, ◌≤◌, ◌<◌, ◌≡◌, ◌≢◌, inl, inr, refl, ap, sym, ◌∙◌, true, false, not, ◌&&◌,
  ◌==◌, ltb, List, [], ◌∷◌, ◌++◌, Option, length, length-append, arith, if_keeps,
}
use e_trace_gen_e_bpfevent_t.Model.Canonical.{CanonicalEvent}
use e_trace_gen_e_bpfevent_t.Registry.Entity.{ProcessEntity}
use e_trace_gen_e_bpfevent_t.Sink.Line.{serialize}
use e_trace_gen_e_bpfevent_t.Sink.File.{JsonSink, FileSystem, write_line, write, write_all}
use e_trace_gen_e_bpfevent_t.Sink.Stream.{IsCounting, IsHealthy, IsCovering, IsWorking}
use e_trace_gen_e_bpfevent_t.Sink.Rotation.{IsStep, write_line-IsStep}
use e_trace_gen_e_bpfevent_t.Sink.Texts.{next_text, write_line-working, write_line-failed}

-- The lines of events, and lines as one text.
abbrev pub lines_of : List (FileSystem × CanonicalEvent × Option ProcessEntity) → List (List ℕ)
lines_of [] = []
lines_of ((fs, event, pe) ∷ rest) = serialize event pe ∷ lines_of rest

abbrev pub joined : List (List ℕ) → List ℕ
joined [] = []
joined (line ∷ lines) = line ++ joined lines

write-ready :
    (fs : FileSystem) (event : CanonicalEvent) (pe : Option ProcessEntity) (k : JsonSink)
    → k.ready ≡ true
    → write fs event pe k ≡ write_line fs (serialize event pe) k
unfolding write
write-ready fs event pe k ready = rw ready refl

write-over :
    (fs : FileSystem) (event : CanonicalEvent) (pe : Option ProcessEntity) (k : JsonSink)
    → k.ready ≡ false
    → (write fs event pe k).ready ≡ false
unfolding write
write-over fs event pe k over = ground arith

write_all-over :
    (events : List (FileSystem × CanonicalEvent × Option ProcessEntity)) (k : JsonSink)
    → k.ready ≡ false
    → (write_all events k).ready ≡ false
unfolding write_all
write_all-over [] k over = over
write_all-over ((fs, event, pe) ∷ rest) k over =
    write_all-over rest (write fs event pe k) (write-over fs event pe k over)

-- The text of a file after lines: a line starts it anew exactly when there is a limit and the line
-- does not fit behind the text.
abbrev pub rotated_text : ℕ → List ℕ → List (List ℕ) → List ℕ
rotated_text limit text [] = text
rotated_text limit text (line ∷ lines) = rotated_text limit (next_text limit text line) lines

length-next_text :
    (limit : ℕ) (text line : List ℕ)
    → length (next_text limit text line) ≤ length text + length line
length-next_text limit text line =
    if_keeps (λ (t : List ℕ). length t ≤ length text + length line)
      (not (limit == 0) && ltb limit (length text + length line)) (omega arith)
      (omega (arith, length-append text line))

-- The stream of the sink has not failed, the sink is ready and counts the bytes of its file, and
-- everything that the writes of events ask of the system succeeds. Then the same holds after them,
-- and what the stream took is the text before with one line for each event in turn, where a line
-- starts the file anew exactly when there is a limit and it does not fit. All the lines with the
-- text before are below 2^64 bytes.
pub write_all-lines :
    (events : List (FileSystem × CanonicalEvent × Option ProcessEntity)) (k : JsonSink)
    → IsHealthy k
    → All (λ e. IsWorking e.0) events
    → length k.written + length (joined (lines_of events)) < 2 ^ 64
    → IsHealthy (write_all events k)
      × ((write_all events k).written
          ≡ rotated_text k.max_file_size_bytes k.written (lines_of events))
unfolding write_all
write_all-lines [] k healthy works space = (healthy, refl)
write_all-lines ((fs, event, pe) ∷ rest) k healthy (work, works) space =
    let line = serialize event pe in
    let total = length-append line (joined (lines_of rest)) in
    let is = write-ready fs event pe k healthy.0 in
    let (healthy1, limit, text) =
      write_line-working fs line k healthy work (omega (arith, space, total)) in
    subst
      (λ (k1 : JsonSink).
        IsHealthy (write_all rest k1)
        × ((write_all rest k1).written
            ≡ rotated_text k.max_file_size_bytes k.written (line ∷ lines_of rest)))
      (sym is)
      (let end = write_all-lines rest (write_line fs line k) healthy1 works (
          omega (
            arith,
            space,
            total,
            ap length text,
            length-next_text k.max_file_size_bytes k.written line,
          )) in
        (
          end.0,
          end.1
              ∙ ap (λ n. rotated_text n (write_line fs line k).written (lines_of rest)) limit
              ∙ ap (λ w. rotated_text k.max_file_size_bytes w (lines_of rest)) text,
        ))

-- Once the stream of a ready sink has failed, the sink takes events without writing any of them: as
-- long as no line makes it start the file anew it stays ready, and the stream takes nothing. The
-- counted size with the lines is below 2^64, and within the limit if there is one.
pub write_all-lost :
    (events : List (FileSystem × CanonicalEvent × Option ProcessEntity)) (k : JsonSink)
    → k.ready ≡ true
    → k.good ≡ false
    → k.current_file_size_bytes + length (joined (lines_of events)) < 2 ^ 64
    → (k.max_file_size_bytes ≢ 0
        → k.current_file_size_bytes + length (joined (lines_of events)) ≤ k.max_file_size_bytes)
    → ((write_all events k).ready ≡ true) × ((write_all events k).written ≡ k.written)
unfolding write_all
write_all-lost [] k ready bad space fits = (ready, refl)
write_all-lost ((fs, event, pe) ∷ rest) k ready bad space fits =
    let line = serialize event pe in
    let total = length-append line (joined (lines_of rest)) in
    let (ready1, bad1, same, limit, size) =
      write_line-failed fs line k ready bad
        (λ limited. omega (arith, fits limited, total, space)) in
    subst
      (λ (k1 : JsonSink).
        ((write_all rest k1).ready ≡ true) × ((write_all rest k1).written ≡ k.written))
      (sym (write-ready fs event pe k ready))
      (let end =
          write_all-lost rest (write_line fs line k) ready1 bad1 (omega (arith, space, total, size))
            (λ limited.
              omega (arith, fits (λ e. limited (limit ∙ e)), limit, total, size, space)) in
        (end.0, end.1 ∙ same))

bounded_from :
    (events : List (FileSystem × CanonicalEvent × Option ProcessEntity)) (k : JsonSink)
    → IsCovering k
    → k.current_file_size_bytes + length (joined (lines_of events)) < 2 ^ 64
    → k.max_file_size_bytes ≢ 0
    → k.current_file_size_bytes ≤ k.max_file_size_bytes
    → All (λ line. length line ≤ k.max_file_size_bytes) (lines_of events)
    → (write_all events k).ready ≡ true
    → length (write_all events k).written ≤ k.max_file_size_bytes
unfolding write_all
bounded_from [] k covering space limited within short ready = omega (arith, covering.1, within)
bounded_from ((fs, event, pe) ∷ rest) k covering space limited within (first, short) ready =
    let line = serialize event pe in
    let k1 = write fs event pe k in
    let total = length-append line (joined (lines_of rest)) in
    let step : IsStep line k k1 =
      rw (write-ready fs event pe k covering.0)
        (write_line-IsStep fs line k covering (omega (arith, space, total))) in
    let go : (k1.max_file_size_bytes ≡ k.max_file_size_bytes)
        → IsCovering k1
        → k1.current_file_size_bytes + length (joined (lines_of rest)) < 2 ^ 64
        → k1.current_file_size_bytes ≤ k.max_file_size_bytes
        → length (write_all rest k1).written ≤ k.max_file_size_bytes =
      λ same covering1 space1 within1.
        subst (λ n. length (write_all rest k1).written ≤ n) same
          (bounded_from rest k1 covering1 space1 (λ e. limited (sym same ∙ e)) (rw same within1)
            (subst (λ n. All (λ l. length l ≤ n) (lines_of rest)) (sym same) short) ready) in
    elim step [
      | inl over ↦ absurd (cc (write_all-over rest k1 over, ready))
      | inr (covering1, same, inl (grown, fits)) ↦
          go same covering1 (omega (arith, space, total, grown)) (fits limited)
      | inr (covering1, same, inr anew) ↦
          go same covering1 (omega (arith, space, total, anew)) (omega (arith, first, anew))
    ]

-- A sink with a limit writes events whose lines are each within it, to a file within it. Whatever
-- fails, while the sink is ready what its stream took never grows past the limit. All the lines with
-- what the file holds at first are below 2^64 bytes.
pub write_all-bounded :
    (events : List (FileSystem × CanonicalEvent × Option ProcessEntity)) (k : JsonSink)
    → IsCounting k
    → length k.written + length (joined (lines_of events)) < 2 ^ 64
    → k.max_file_size_bytes ≢ 0
    → length k.written ≤ k.max_file_size_bytes
    → All (λ line. length line ≤ k.max_file_size_bytes) (lines_of events)
    → (write_all events k).ready ≡ true
    → length (write_all events k).written ≤ k.max_file_size_bytes
write_all-bounded events k (ready, counts) space limited within =
    bounded_from events k (ready, omega (arith, counts)) (omega (arith, counts, space)) limited
      (omega (arith, counts, within))
