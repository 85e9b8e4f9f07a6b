-- ===== src/Tests/Config.antt =====
-- Configuration files at concrete texts.
use e_trace_gen_e_bpfevent_t.Base.{
  arith, leading_number, ℕ, ◌≡◌, refl, false, List, [], ◌∷◌, some, codes, All, strip_back,
}
use e_trace_gen_e_bpfevent_t.Util.Proc.{stoull}
use e_trace_gen_e_bpfevent_t.Config.Text.{
  getlines, trim, strip_front, index_of, uncommented, split_colon,
}
use e_trace_gen_e_bpfevent_t.Config.SinkSettings.{
  default_sink_config, sink_settings, sink_setting, set_sink, unquoted, load_sink_runtime_config,
}
use e_trace_gen_e_bpfevent_t.Config.Runtime.{default_runtime_config, parse_uint32_allowlist}
use e_trace_gen_e_bpfevent_t.Config.Load.{load_runtime_config}
use e_trace_gen_e_bpfevent_t.Config.Allowlist.{printed, parse_uint32_allowlist-printed}
use e_trace_gen_e_bpfevent_t.Config.Settings.{IsNoHeading, load_sink_runtime_config-default}

-- A file with a sink section, a quoted path and a comment.
abbrev sink_text : List ℕ
sink_text = codes "sink:\n  path: \"/tmp/e.log\"  # here\n  max_file_size_bytes: 4096\n"

sink_read :
    load_sink_runtime_config (some sink_text)
    ≡ record { path = codes "/tmp/e.log"; max_file_size_bytes = 4096 }
unfolding load_sink_runtime_config getlines trim strip_front uncommented index_of split_colon
    sink_settings sink_setting set_sink unquoted stoull leading_number strip_back
sink_read = refl

abbrev runtime_text : List ℕ
runtime_text = codes "domains:\n  file: false\nfilters:\n  pid_allowlist: [1, x, 4294967296, 7]\n"

pids_read :
    (load_runtime_config (some runtime_text) default_runtime_config).1.pid_allowlist ≡ 1 ∷ 7 ∷ []
unfolding load_runtime_config trim strip_back strip_front uncommented leading_number
pids_read = refl

file_off : (load_runtime_config (some runtime_text) default_runtime_config).1.domains.file ≡ false
unfolding load_runtime_config trim strip_back strip_front uncommented
file_off = refl

runtime_text-IsNoHeading : All IsNoHeading (getlines 10 [] runtime_text)
unfolding getlines trim strip_front uncommented index_of strip_back
runtime_text-IsNoHeading = (refl, (refl, (refl, (refl, tt))))

load_sink_runtime_config-default_example :
    load_sink_runtime_config (some runtime_text) ≡ default_sink_config
load_sink_runtime_config-default_example =
    load_sink_runtime_config-default runtime_text runtime_text-IsNoHeading

parse_uint32_allowlist-printed_example :
    parse_uint32_allowlist (printed (1 ∷ 4294967296 ∷ 7 ∷ [])) [] ≡ 1 ∷ 7 ∷ []
parse_uint32_allowlist-printed_example =
    parse_uint32_allowlist-printed (1 ∷ 4294967296 ∷ 7 ∷ []) []
      (omega arith, (omega arith, (omega arith, tt)))
