-- ===== src/Util/Proc.antt =====
-- src/util/proc_util.cpp. What the operating system answers is a parameter; text is a list of
-- bytes. A file reads the same in text and in binary mode, as on Linux.
use e_trace_gen_e_bpfevent_t.Base.{
  leading_number, to_string, tokens, false, drop, strip_back, codes, is_digit, ℕ, ◌-◌, ◌^◌, Bool,
  ◌||◌, ◌&&◌, ◌++◌, ◌==◌, if◌then◌else◌, ltb, List, [], ◌∷◌, map, Option, none, some, take, get_or,
  c_str, u64,
}

-- `readlink` gives the target of a path, and an open file its contents; none is a failure.
pub record Proc : Type 0 where
  pub readlink : List ℕ → Option (List ℕ)
  pub read_file : List ℕ → Option (List ℕ)

-- The buffer has 256 bytes, one of them for the NUL.
unfoldable pub read_proc_symlink : Proc → List ℕ → List ℕ
read_proc_symlink proc path = elim (proc.readlink path) [
  | none ↦ []
  | some target ↦ c_str (take 255 target)
]

unfoldable pub read_text_file : Proc → List ℕ → List ℕ
read_text_file proc path = elim (proc.read_file path) [ none ↦ [] | some text ↦ text ]

abbrev pub nul_to_space : ℕ → ℕ
nul_to_space c = if c == 0 then 32 else c

unfoldable pub normalize_cmdline : List ℕ → List ℕ
normalize_cmdline raw = strip_back (λ c. c == 32) (map nul_to_space raw)

-- `RStrip`, on the string that its pointer gives.
unfoldable pub rstrip : List ℕ → List ℕ
rstrip s = strip_back (λ c. c == 10 || c == 13 || c == 32) s

-- Whether a byte and the text after it start with `") "`.
abbrev pub is_close : ℕ → List ℕ → Bool
is_close c s = c == 41 && get_or s 0 0 == 32

-- What stands after the last `") "`.
unfoldable pub after_close : List ℕ → Option (List ℕ)
after_close [] = none
after_close (c ∷ s) = elim (after_close s) [
  | some rest ↦ some rest
  | none ↦ if is_close c s then some (drop 1 s) else none
]

abbrev pub starts_with_digit : List ℕ → Bool
starts_with_digit [] = false
starts_with_digit (c ∷ s) = is_digit c

-- The digits of a number that fits 64 bits; none where `std::stoull` throws.
abbrev pub magnitude : List ℕ → Option ℕ
magnitude s =
    if starts_with_digit s && ltb (leading_number 0 s) (2 ^ 64)
    then some (leading_number 0 s)
    else none

-- `std::stoull` on a text without white space: an optional sign, then digits.
unfoldable pub stoull : List ℕ → Option ℕ
stoull [] = none
stoull (c ∷ s) =
    if c == b'-'
    then elim (magnitude s) [ none ↦ none | some n ↦ some (u64 (2 ^ 64 - n)) ]
    else if c == b'+'
    then magnitude s
    else magnitude (c ∷ s)

-- Field 22 of a stat line is the 20th token after the comm field.
unfoldable pub parse_start_time_ticks : List ℕ → ℕ
parse_start_time_ticks stat_line = elim (after_close stat_line) [
  | none ↦ 0
  | some rest ↦ elim (stoull (get_or (tokens [] rest) 19 [])) [ none ↦ 0 | some n ↦ n ]
]

-- `ReadStartTimeTicks` of src/registry/entity_registry.cpp
unfoldable pub proc_path : ℕ → List ℕ → List ℕ
proc_path key name = codes "/proc/" ++ to_string key ++ name

unfoldable pub read_start_time_ticks : Proc → ℕ → ℕ
unfolding proc_path read_text_file parse_start_time_ticks
read_start_time_ticks proc key =
    parse_start_time_ticks (read_text_file proc (proc_path key (codes "/stat")))
