-- ===== src/Config/SinkSettings.antt =====
-- src/main.cpp: `LoadSinkRuntimeConfig`.
use e_trace_gen_e_bpfevent_t.Base.{
  ℕ, ◌-◌, ◌*◌, Bool, true, false, not, ◌&&◌, ◌||◌, ◌==◌, leb, if◌then◌else◌, List, [], ◌∷◌, Option,
  none, some, length, take, drop, get_or, codes,
}
use e_trace_gen_e_bpfevent_t.Util.Proc.{stoull}
use e_trace_gen_e_bpfevent_t.Registry.Entity.{is_empty}
use e_trace_gen_e_bpfevent_t.Config.Text.{
  getlines, strip_front, trim, uncommented, is_text, last_or, split_colon,
}

pub record SinkRuntimeConfig : Type 0 where
  pub path : List ℕ
  pub max_file_size_bytes : ℕ

abbrev pub default_sink_config : SinkRuntimeConfig
default_sink_config = record {
  path = codes "/var/log/etracegen/events.ndjson";
  max_file_size_bytes = 100 * 1024 * 1024;
}

-- A value without the quotes around it.
unfoldable pub unquoted : List ℕ → List ℕ
unquoted value =
    let front = get_or value 0 0 in
    let back = last_or 0 value in
    if leb 2 (length value) && (front == 34 && back == 34 || front == 39 && back == 39)
    then take (length value - 2) (drop 1 value)
    else value

-- A number that cannot be read leaves the setting; `stoull` skips white space.
unfoldable pub set_sink : List ℕ → List ℕ → SinkRuntimeConfig → SinkRuntimeConfig
unfolding stoull
set_sink key value cfg =
    if is_text key "path"
    then record cfg { path = value }
    else if is_text key "max_file_size_bytes"
    then elim (stoull (strip_front value)) [
      | none ↦ cfg
      | some n ↦ record cfg { max_file_size_bytes = n }
    ]
    else cfg

-- One round of the loop, with `in_sink`, on a line without comment and white space around it.
unfoldable pub sink_setting : List ℕ → Bool × SinkRuntimeConfig → Bool × SinkRuntimeConfig
unfolding set_sink unquoted split_colon
sink_setting trimmed (in_sink, cfg) =
    if is_empty trimmed
    then (in_sink, cfg)
    else if is_text trimmed "sink:"
    then (true, cfg)
    else if last_or 0 trimmed == 58
    then (false, cfg)
    else if not in_sink
    then (in_sink, cfg)
    else elim (split_colon trimmed) [
      | none ↦ (in_sink, cfg)
      | some (key, value) ↦ (in_sink, set_sink key (unquoted value) cfg)
    ]

unfoldable pub sink_settings : List (List ℕ) → Bool × SinkRuntimeConfig → Bool × SinkRuntimeConfig
unfolding sink_setting
sink_settings [] state = state
sink_settings (line ∷ lines) state =
    sink_settings lines (sink_setting (trim (uncommented line)) state)

-- The contents of the file are none when it cannot be opened.
unfoldable pub load_sink_runtime_config : Option (List ℕ) → SinkRuntimeConfig
unfolding sink_settings getlines
load_sink_runtime_config none = default_sink_config
load_sink_runtime_config (some text) =
    (sink_settings (getlines 10 [] text) (false, default_sink_config)).1
