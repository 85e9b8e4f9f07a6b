-- ===== src/Config/Text.antt =====
-- src/main.cpp and src/collector/collector_libbpf.cpp: lines and values of a configuration file.
use Prim.Native.String.{String}
use e_trace_gen_e_bpfevent_t.Base.{
  ℕ, ◌+◌, Bool, true, false, ◌&&◌, ◌==◌, if◌then◌else◌, List, [], ◌∷◌, ◌++◌, Option, none, some,
  length, take, drop, codes, is_space, strip_back,
}

-- `std::getline` until the end: the pieces that a byte ends, and a last piece that is not empty.
unfoldable pub getlines : ℕ → List ℕ → List ℕ → List (List ℕ)
getlines d [] [] = []
getlines d (a ∷ acc) [] = (a ∷ acc) ∷ []
getlines d acc (c ∷ s) =
    let ended = getlines d [] s in
    let longer = getlines d (acc ++ (c ∷ [])) s in if c == d then acc ∷ ended else longer

unfoldable pub strip_front : List ℕ → List ℕ
strip_front [] = []
strip_front (c ∷ s) = if is_space c then strip_front s else c ∷ s

-- `Trim`
unfoldable pub trim : List ℕ → List ℕ
trim s = strip_back is_space (strip_front s)

-- The index of the first such byte: `find`, with none for `npos`.
unfoldable pub index_of : ℕ → List ℕ → Option ℕ
index_of d [] = none
index_of d (c ∷ s) =
    let later = index_of d s in
    if c == d then some 0 else elim later [ none ↦ none | some i ↦ some (i + 1) ]

-- A line without its comment.
unfoldable pub uncommented : List ℕ → List ℕ
uncommented line = elim (index_of 35 line) [ none ↦ line | some i ↦ take i line ]

abbrev pub same_text : List ℕ → List ℕ → Bool
same_text [] [] = true
same_text (a ∷ s) (b ∷ t) = a == b && same_text s t
same_text _ _ = false

-- `s == "..."`
abbrev pub is_text : List ℕ → String → Bool
is_text s name = same_text s (codes name)

-- `rfind(prefix, 0) == 0`
abbrev pub starts_with : List ℕ → String → Bool
starts_with s prefix = is_text (take (length (codes prefix)) s) prefix

abbrev pub last_or : ℕ → List ℕ → ℕ
last_or d [] = d
last_or d (c ∷ s) = last_or c s

-- The key and the value of a line, at its first colon.
unfoldable pub split_colon : List ℕ → Option (List ℕ × List ℕ)
split_colon s = elim (index_of 58 s) [
  | none ↦ none
  | some i ↦ some (trim (take i s), trim (drop (i + 1) s))
]
