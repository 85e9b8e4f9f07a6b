-- ===== src/Tests/Registry.antt =====
-- The registry of processes at concrete events.
use e_trace_gen_e_bpfevent_t.Base.{
  is_space, ◌⊎◌, zero, suc, All, leading_number, ℕ, ◌≡◌, ◌≢◌, refl, true, false, List, [], ◌∷◌,
  ◌++◌, none, some, replicate, codes, arith, to_string, decimal, find, insert, tokens,
}
use e_trace_gen_e_bpfevent_t.Util.Proc.{
  read_start_time_ticks, proc_path, Proc, parse_start_time_ticks, after_close, stoull,
}
use e_trace_gen_e_bpfevent_t.Util.Stat.{IsField, spaced, parse_start_time_ticks_lem}
use e_trace_gen_e_bpfevent_t.Model.Canonical.{CanonicalAction, CanonicalEvent}
use e_trace_gen_e_bpfevent_t.Model.Normalizer.{common_event}
use e_trace_gen_e_bpfevent_t.Registry.Entity.{ProcessEntity}
use e_trace_gen_e_bpfevent_t.Registry.Table.{
  is_reused, new_entity, EntityRegistry, empty_registry, find_process,
}
use e_trace_gen_e_bpfevent_t.Registry.Resolution.{IsHolder}
use e_trace_gen_e_bpfevent_t.Registry.Ingest.{ingest, ingest_all}
use e_trace_gen_e_bpfevent_t.Registry.Consistent.{IsConsistent, IsBounded, IsLater}
use e_trace_gen_e_bpfevent_t.Registry.History.{ingest_all-IsConsistent, ingest_all-IsLater}
use e_trace_gen_e_bpfevent_t.Registry.Lifecycle.{
  IsReplaced, IsPast, IsExitOf, ingest-exit, ingest-identity,
}
use e_trace_gen_e_bpfevent_t.Schema.{Event}
use e_trace_gen_e_bpfevent_t.Tests.Setup.{file_slot}

-- A system without /proc.
abbrev pub quiet : Proc
quiet = record { readlink = λ path. none; read_file = λ path. none }

-- A name with a space and a parenthesis, 19 fields, and a start time of 4242.
abbrev nineteen : List (List ℕ)
nineteen = codes "S" ∷ replicate 18 (codes "0")

abbrev stat_line : List ℕ
stat_line = codes "7 (a) b" ++ (41 ∷ 32 ∷ spaced (nineteen ++ (to_string 4242 ∷ [])) ++ codes "1 2")

abbrev answering : Proc
answering = record { readlink = λ path. none; read_file = λ path. some stat_line }

ticks_read : parse_start_time_ticks stat_line ≡ 4242
unfolding parse_start_time_ticks after_close tokens stoull to_string decimal leading_number
ticks_read = refl

abbrev event : ℕ → CanonicalAction → ℕ → CanonicalEvent
event tgid action ts_ns = record (common_event (Event.file file_slot)) {
  ts_ns = ts_ns;
  action = action;
  actor = record { pid = tgid; tgid = tgid; ppid = 1; uid = 0; gid = 0; comm = codes "sh" };
}

abbrev history : List (Proc × CanonicalEvent)
history =
    (answering, event 7 CanonicalAction.process_execed 100)
    ∷ (quiet, event 8 CanonicalAction.file_opened 200)
    ∷ []

abbrev reached : EntityRegistry
reached = ingest_all history empty_registry

ingest_all-IsConsistent_example : IsConsistent reached × IsBounded reached
ingest_all-IsConsistent_example = ingest_all-IsConsistent history (omega arith)

abbrev entity_at : ℕ → EntityRegistry → ProcessEntity
entity_at id r = elim (find_process id r) [ none ↦ new_entity 0 | some e ↦ e ]

found_first : find_process 1 reached ≡ some (entity_at 1 reached)
unfolding ingest_all proc_path decimal is_reused leading_number after_close find insert
found_first = refl

first_lives : (entity_at 1 reached).exited ≡ false
unfolding ingest_all proc_path decimal is_reused leading_number after_close find insert
first_lives = refl

first_name : (entity_at 1 reached).comm ≡ codes "sh"
unfolding ingest_all proc_path decimal is_reused leading_number after_close find insert
first_name = refl

first_ticks : (entity_at 1 reached).start_time_ticks ≡ 4242
unfolding ingest_all proc_path decimal is_reused leading_number after_close read_start_time_ticks
    find insert to_string stoull tokens
first_ticks = refl

ids_given : reached.next_id ≡ 3
unfolding ingest_all proc_path decimal is_reused leading_number after_close find insert
ids_given = refl

ingest_all-IsLater_example : IsLater reached (ingest_all history reached)
ingest_all-IsLater_example =
    let start = ingest_all-IsConsistent history (omega arith) in
    ingest_all-IsLater history reached start.0 start.1 (omega (arith, ids_given))

-- Process 7 exits.
abbrev exits : CanonicalEvent
exits = event 7 CanonicalAction.process_exited 300

ingest-exit_example :
    ((ingest quiet exits reached).registry.tgid_index 7 ≡ none)
    × (((ingest quiet exits reached).subject_process ≡ none)
        ⊎ ((e : ProcessEntity) × ((ingest quiet exits reached).subject_process ≡ some e)
            × IsExitOf exits e))
ingest-exit_example =
    let start = ingest_all-IsConsistent history (omega arith) in
    ingest-exit quiet exits reached start.0 start.1 (omega (arith, ids_given)) (omega arith) refl

first_holds : IsHolder 7 1 (entity_at 1 reached) reached
unfolding ingest_all proc_path decimal is_reused leading_number after_close find insert
first_holds = record { held = refl; found = refl; live = refl; keyed = refl }

-- A second later /proc gives another start time for process 7.
abbrev other_line : List ℕ
other_line = codes "7 (sh) " ++ spaced (nineteen ++ (to_string 9999 ∷ []))

abbrev changed : Proc
changed = record { readlink = λ path. none; read_file = λ path. some other_line }

abbrev later : CanonicalEvent
later = event 7 CanonicalAction.file_opened 1000000100

ingest-identity_example :
    (¬ IsReplaced changed (entity_at 1 reached) 7 1000000100)
      × ((ingest changed later reached).event.subject.id ≡ 1)
    ⊎ IsReplaced changed (entity_at 1 reached) 7 1000000100
      × ((ingest changed later reached).event.subject.id ≡ reached.next_id)
      × IsPast 1 (ingest changed later reached).registry
ingest-identity_example =
    let start = ingest_all-IsConsistent history (omega arith) in
    ingest-identity changed later reached 1 (entity_at 1 reached) start.0 start.1
      (omega (arith, ids_given)) (omega arith) first_holds

number_reused : (is_reused changed (entity_at 1 reached) 7 1000000100).0 ≡ true
unfolding ingest_all proc_path decimal is_reused leading_number after_close read_start_time_ticks
    find insert to_string stoull tokens
number_reused = refl

letter-IsField : (c : ℕ) → is_space c ≡ false → c ≢ 41 → IsField (c ∷ [])
letter-IsField c black other = ((λ e. cc e), (black, tt), (other, tt))

zeros-IsField : (n : ℕ) → All IsField (replicate n (codes "0"))
zeros-IsField zero = tt
zeros-IsField (suc n) = (letter-IsField 48 refl (omega arith), zeros-IsField n)

nineteen-IsField : All IsField nineteen
nineteen-IsField = (letter-IsField 83 refl (omega arith), zeros-IsField 18)

parse_start_time_ticks_lem_example : parse_start_time_ticks stat_line ≡ 4242
parse_start_time_ticks_lem_example =
    parse_start_time_ticks_lem (codes "7 (a) b") nineteen 4242 (codes "1 2") refl nineteen-IsField
      (omega arith) (ground arith)
