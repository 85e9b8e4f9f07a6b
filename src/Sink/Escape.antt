-- ===== src/Sink/Escape.antt =====
-- src/sinks/json_sink.cpp: text and bytes inside JSON strings, and how they are read back.
use e_trace_gen_e_bpfevent_t.Base.{ℕ, ◌+◌, ◌/◌, ◌%◌, ◌==◌, ltb, if◌then◌else◌, List, [], ◌∷◌, ◌++◌}

-- A digit of `%04x` and of `kHex`.
abbrev pub hex_digit : ℕ → ℕ
hex_digit d = if ltb d 10 then 48 + d else 87 + d

-- `snprintf` with `\u%04x`, of a number below 65536.
abbrev pub unicode_escape : ℕ → List ℕ
unicode_escape c =
    92
    ∷ 117
    ∷ hex_digit (c / 4096 % 16)
    ∷ hex_digit (c / 256 % 16)
    ∷ hex_digit (c / 16 % 16)
    ∷ hex_digit (c % 16)
    ∷ []

-- What `JsonEscape` appends for one byte.
unfoldable pub escape_byte : ℕ → List ℕ
escape_byte c =
    if c == 34
    then 92 ∷ 34 ∷ []
    else if c == 92
    then 92 ∷ 92 ∷ []
    else if c == 8
    then 92 ∷ 98 ∷ []
    else if c == 12
    then 92 ∷ 102 ∷ []
    else if c == 10
    then 92 ∷ 110 ∷ []
    else if c == 13
    then 92 ∷ 114 ∷ []
    else if c == 9
    then 92 ∷ 116 ∷ []
    else if ltb c 32
    then unicode_escape c
    else c ∷ []

-- `JsonEscape`; a C string goes through `c_str` first.
unfoldable pub json_escape : List ℕ → List ℕ
json_escape [] = []
json_escape (c ∷ s) = escape_byte c ++ json_escape s

-- `BytesToHex`
unfoldable pub bytes_to_hex : List ℕ → List ℕ
bytes_to_hex [] = []
bytes_to_hex (b ∷ bytes) = hex_digit (b / 16 % 16) ∷ hex_digit (b % 16) ∷ bytes_to_hex bytes
