-- ===== src/Config/Settings.antt =====
-- What the sink's settings are for a file that has no section for it.
use e_trace_gen_e_bpfevent_t.Base.{
  ℕ, ◌≡◌, refl, ap, ◌∙◌, Bool, false, ◌==◌, if_keeps, if_both, List, [], ◌∷◌, some, All,
}
use e_trace_gen_e_bpfevent_t.Registry.Entity.{is_empty}
use e_trace_gen_e_bpfevent_t.Config.Text.{getlines, trim, uncommented, is_text, last_or}
use e_trace_gen_e_bpfevent_t.Config.SinkSettings.{
  SinkRuntimeConfig, default_sink_config, sink_setting, sink_settings, load_sink_runtime_config,
}

-- A line that is not the heading of the sink section.
abbrev pub IsNoHeading : List ℕ → Type 0
IsNoHeading line = is_text (trim (uncommented line)) "sink:" ≡ false

sink_setting-outside :
    (trimmed : List ℕ) (cfg : SinkRuntimeConfig)
    → is_text trimmed "sink:" ≡ false
    → sink_setting trimmed (false, cfg) ≡ (false, cfg)
unfolding sink_setting
sink_setting-outside trimmed cfg other =
    let P : Bool × SinkRuntimeConfig → Type 0 = λ p. p ≡ (false, cfg) in
    if_keeps P (is_empty trimmed) refl (
      if_both P (is_text trimmed "sink:") (λ heading. cc (heading, other))
        (λ h. if_keeps P (last_or 0 trimmed == 58) refl refl))

sink_settings-outside :
    (lines : List (List ℕ)) (cfg : SinkRuntimeConfig)
    → All IsNoHeading lines
    → sink_settings lines (false, cfg) ≡ (false, cfg)
unfolding sink_settings
sink_settings-outside [] cfg h = refl
sink_settings-outside (line ∷ lines) cfg h =
    ap (sink_settings lines) (sink_setting-outside (trim (uncommented line)) cfg h.0)
    ∙ sink_settings-outside lines cfg h.1

-- A configuration file that has no line `sink:`, comments and white space aside, leaves the sink's
-- path and size limit at their defaults, whatever else it says.
pub load_sink_runtime_config-default :
    (text : List ℕ)
    → All IsNoHeading (getlines 10 [] text)
    → load_sink_runtime_config (some text) ≡ default_sink_config
unfolding load_sink_runtime_config
load_sink_runtime_config-default text h =
    ap (λ p. p.1) (sink_settings-outside (getlines 10 [] text) default_sink_config h)
