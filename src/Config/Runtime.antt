-- ===== src/Config/Runtime.antt =====
-- src/collector/collector_libbpf.cpp: `LoadRuntimeConfig`.
use e_trace_gen_e_bpfevent_t.Base.{
  leading_number, ℕ, ℤ, pos, negsuc, ◌+◌, ◌-◌, ◌^◌, Bool, true, false, ◌&&◌, ◌==◌, ltb, leb,
  if◌then◌else◌, List, [], ◌∷◌, ◌++◌, map, Option, none, some, take, drop, s32,
}
use e_trace_gen_e_bpfevent_t.Util.Proc.{stoull, starts_with_digit}
use e_trace_gen_e_bpfevent_t.Config.Text.{getlines, trim, index_of, is_text}

pub record FileProbeConfig : Type 0 where
  pub openat : Bool
  pub unlinkat : Bool
  pub renameat2 : Bool

pub record DomainConfig : Type 0 where
  pub process : Bool
  pub file : Bool
  pub syscall : Bool
  pub network_socket : Bool

-- `network` has only its list of ports.
pub record RuntimeConfig : Type 0 where
  pub domains : DomainConfig
  pub file_probes : FileProbeConfig
  pub pid_allowlist : List ℕ
  pub uid_allowlist : List ℕ
  pub syscall_allowlist : List ℤ
  pub port_allowlist : List ℕ

abbrev pub default_runtime_config : RuntimeConfig
default_runtime_config = record {
  domains = record { process = true; file = true; syscall = true; network_socket = false };
  file_probes = record { openat = true; unlinkat = true; renameat2 = true };
  pid_allowlist = [];
  uid_allowlist = [];
  syscall_allowlist = [];
  port_allowlist = [];
}

abbrev pub to_lower : ℕ → ℕ
to_lower c = if leb 65 c && leb c 90 then c + 32 else c

-- `ParseBool`: the old value where the text is neither.
unfoldable pub parse_bool : List ℕ → Bool → Bool
parse_bool value old =
    let lower = map to_lower (trim value) in
    if is_text lower "true" then true else if is_text lower "false" then false else old

-- What stands between the first brackets, if they are in order.
unfoldable pub bracketed : List ℕ → Option (List ℕ)
unfolding index_of
bracketed value = elim (index_of 91 value) [
  | none ↦ none
  | some l ↦ elim (index_of 93 value) [
    | none ↦ none
    | some r ↦ if leb r l then none else some (take (r - l - 1) (drop (l + 1) value))
  ]
]

-- The entries of the inline list, added at the end: `std::stoul` reads 64 bits, and what does not
-- fit 32 is left out.
unfoldable pub add_uint32 : List (List ℕ) → List ℕ → List ℕ
unfolding stoull
add_uint32 [] out = out
add_uint32 (token ∷ tokens) out = elim (stoull (trim token)) [
  | none ↦ add_uint32 tokens out
  | some n ↦ add_uint32 tokens (if ltb n (2 ^ 32) then out ++ (n ∷ []) else out)
]

-- `ParseUint32AllowlistInline`
unfoldable pub parse_uint32_allowlist : List ℕ → List ℕ → List ℕ
unfolding bracketed add_uint32 getlines
parse_uint32_allowlist value out = elim (bracketed value) [
  | none ↦ out
  | some body ↦ add_uint32 (getlines 44 [] body) out
]

-- `std::stol` on a text without white space: none out of the range of `int64_t`.
unfoldable pub stol : List ℕ → Option ℤ
stol [] = none
stol (c ∷ s) =
    if c == b'-'
    then (if starts_with_digit s && leb (leading_number 0 s) (2 ^ 63)
        then some (if leading_number 0 s == 0 then pos 0 else negsuc (leading_number 0 s - 1))
        else none)
    else let digits = if c == b'+' then s else c ∷ s in
      if starts_with_digit digits && ltb (leading_number 0 digits) (2 ^ 63)
      then some (pos (leading_number 0 digits))
      else none

unfoldable pub add_int32 : List (List ℕ) → List ℤ → List ℤ
unfolding stol
add_int32 [] out = out
add_int32 (token ∷ tokens) out = elim (stol (trim token)) [
  | none ↦ add_int32 tokens out
  | some z ↦ add_int32 tokens (out ++ (s32 z ∷ []))
]

-- `ParseInt32AllowlistInline`
unfoldable pub parse_int32_allowlist : List ℕ → List ℤ → List ℤ
unfolding bracketed add_int32 getlines
parse_int32_allowlist value out = elim (bracketed value) [
  | none ↦ out
  | some body ↦ add_int32 (getlines 44 [] body) out
]

-- The section that a line stands in: at most one of the three flags of the loop is set.
pub data Section : Type 0 where
  other : Section
  in_file_probes : Section
  in_domains : Section
  in_network_filters : Section

unfoldable pub set_file_probe : List ℕ → List ℕ → FileProbeConfig → FileProbeConfig
unfolding parse_bool
set_file_probe key value f =
    if is_text key "openat"
    then record f { openat = parse_bool value f.openat }
    else if is_text key "unlinkat"
    then record f { unlinkat = parse_bool value f.unlinkat }
    else if is_text key "renameat2"
    then record f { renameat2 = parse_bool value f.renameat2 }
    else f

unfoldable pub set_domain : List ℕ → List ℕ → DomainConfig → DomainConfig
unfolding parse_bool
set_domain key value d =
    if is_text key "process"
    then record d { process = parse_bool value d.process }
    else if is_text key "file"
    then record d { file = parse_bool value d.file }
    else if is_text key "syscall"
    then record d { syscall = parse_bool value d.syscall }
    else if is_text key "network_socket"
    then record d { network_socket = parse_bool value d.network_socket }
    else d

abbrev pub is_in_network_filters : Section → Bool
is_in_network_filters Section.in_network_filters = true
is_in_network_filters _ = false

-- A key and its value, for the section of the line.
unfoldable pub set_key : Section → List ℕ → List ℕ → RuntimeConfig → RuntimeConfig
unfolding set_file_probe set_domain
set_key Section.in_file_probes key value cfg = record cfg {
  file_probes = set_file_probe key value cfg.file_probes;
}
set_key Section.in_domains key value cfg = record cfg { domains = set_domain key value cfg.domains }
set_key _ key value cfg = cfg
