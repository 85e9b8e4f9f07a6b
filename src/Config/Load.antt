-- ===== src/Config/Load.antt =====
-- src/collector/collector_libbpf.cpp: the loop of `LoadRuntimeConfig`.
use e_trace_gen_e_bpfevent_t.Base.{
  ℕ, Bool, true, false, ◌&&◌, ◌==◌, if◌then◌else◌, List, [], ◌∷◌, Option, none, some,
}
use e_trace_gen_e_bpfevent_t.Registry.Entity.{is_empty}
use e_trace_gen_e_bpfevent_t.Config.Text.{
  getlines, trim, uncommented, is_text, starts_with, last_or, split_colon,
}
use e_trace_gen_e_bpfevent_t.Config.Runtime.{
  RuntimeConfig, Section, is_in_network_filters, set_key, parse_uint32_allowlist,
  parse_int32_allowlist,
}

-- One round, on a line without comment and white space around it.
unfoldable pub runtime_setting : List ℕ → Section × RuntimeConfig → Section × RuntimeConfig
unfolding set_key parse_uint32_allowlist parse_int32_allowlist split_colon
runtime_setting trimmed (section, cfg) =
    if is_empty trimmed
    then (section, cfg)
    else if is_text trimmed "file_probes:"
    then (Section.in_file_probes, cfg)
    else if is_text trimmed "domains:"
    then (Section.in_domains, cfg)
    else if is_text trimmed "network_filters:"
    then (Section.in_network_filters, cfg)
    else if last_or 0 trimmed == 58
    then (Section.other, cfg)
    else if starts_with trimmed "pid_allowlist:"
    then (section, record cfg { pid_allowlist = parse_uint32_allowlist trimmed cfg.pid_allowlist })
    else if starts_with trimmed "uid_allowlist:"
    then (section, record cfg { uid_allowlist = parse_uint32_allowlist trimmed cfg.uid_allowlist })
    else if starts_with trimmed "syscall_allowlist:"
    then (
      section,
      record cfg { syscall_allowlist = parse_int32_allowlist trimmed cfg.syscall_allowlist },
    )
    else if is_in_network_filters section && starts_with trimmed "port_allowlist:"
    then (
      section,
      record cfg { port_allowlist = parse_uint32_allowlist trimmed cfg.port_allowlist },
    )
    else elim (split_colon trimmed) [
      | none ↦ (section, cfg)
      | some (key, value) ↦ (section, set_key section key value cfg)
    ]

unfoldable pub runtime_settings : List (List ℕ) → Section × RuntimeConfig → Section × RuntimeConfig
unfolding runtime_setting
runtime_settings [] state = state
runtime_settings (line ∷ lines) state =
    runtime_settings lines (runtime_setting (trim (uncommented line)) state)

-- Whether the file could be opened, and the settings after it.
unfoldable pub load_runtime_config : Option (List ℕ) → RuntimeConfig → Bool × RuntimeConfig
unfolding runtime_settings getlines
load_runtime_config none cfg = (false, cfg)
load_runtime_config (some text) cfg =
    (true, (runtime_settings (getlines 10 [] text) (Section.other, cfg)).1)
