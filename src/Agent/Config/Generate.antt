-- ===== src/Agent/Config/Generate.antt =====
-- The command `xboard-generate-config` (cmd/mini-sb-agent/xboard_config.go): its defaults and exit
-- codes, and the files that it writes. The parsing of flags, the requests to the panel, the encoding of
-- the document and `filepath.Dir` are given.
pub mod Laws
use mini_sb_xboard_agent.Base.{
  ℕ, Bool, true, false, not, ◌&&◌, ◌||◌, List, ◌++◌, Option, none, some, if◌then◌else◌, Result, ok,
  err,
}
use mini_sb_xboard_agent.Base.Text.{Text, lit, is_empty}
use mini_sb_xboard_agent.Base.Map.{Map, put}
use mini_sb_xboard_agent.PanelApi.NodeConfig.{NodeConfig}
use mini_sb_xboard_agent.Agent.Config.{
  GenerateOptions, ConfigError, InboundConfig, normalize_node_mode, generate_inbounds,
}
use mini_sb_xboard_agent.Agent.Config.Cert.{Disk, Write, write_file, CertError}

-- The rest of `xboardGenerateOptions`.
pub record Command : Type 0 where
  pub panel_url : Text
  pub panel_token : Text
  pub out : Text
  pub node_type_out : Text
  pub options : GenerateOptions

pub data GenerateError (E : Type 0) : Type 0 where
  not_generated : ConfigError E → GenerateError E
  not_encoded not_saved : GenerateError E

-- What the writing of the two files meets: for each whether its directory can be made, and the write.
pub record Saving : Type 0 where
  pub out_directory : Bool
  pub out_write : Write
  pub mode_directory : Bool
  pub mode_write : Write

-- `MkdirAll` and `WriteFile`.
unfoldable pub save_file :
    {E : Type 0} → Bool → Write → Text → Text → Disk → Disk × Result (GenerateError E) (Unit {0})
unfolding write_file
save_file false w path bytes disk = (disk, err not_saved)
save_file {E} true w path bytes disk =
    let (disk', r) = write_file {E = E} w path bytes disk in
    elim r [ err _ ↦ (disk', err not_saved) | ok _ ↦ (disk', ok tt) ]

-- The end of `generateXboardConfig`: the document, and then the mode, if a path is given for it.
unfoldable pub save_outputs :
    {E : Type 0} → Saving → Command → Text → Text → Disk → Disk × Result (GenerateError E) Text
unfolding save_file
save_outputs {E} saving c mode document disk =
    let (disk', r) = save_file {E = E} saving.out_directory saving.out_write c.out document disk in
    elim r [
      | err e ↦ (disk', err e)
      | ok _ ↦
          if is_empty c.node_type_out
          then (disk', ok mode)
          else (let (disk'', r') =
                save_file {E = E} saving.mode_directory saving.mode_write c.node_type_out
                  (mode ++ lit "\n") disk' in
              (disk'', elim r' [ err e ↦ err e | ok _ ↦ ok mode ]))
    ]

-- `opts.NodeMode` after the two defaults.
abbrev pub with_mode : GenerateOptions → GenerateOptions
with_mode o =
    let mode =
      if is_empty o.node_mode && not (is_empty o.panel_node_type)
      then normalize_node_mode o.panel_node_type
      else o.node_mode in
    record o { node_mode = if is_empty mode then lit "vless" else mode }

module _ {E : Type 0}
    (generate : GenerateOptions → Disk → Disk × Result (ConfigError E) (Text × List InboundConfig))
    (encode : List InboundConfig → Option Text) (saving : Saving) where
  -- `generateXboardConfig`; `generate` makes the inbounds, and with them a certificate on disk.
  unfoldable pub generate_config : Command → Disk → Disk × Result (GenerateError E) Text
  unfolding save_outputs
  generate_config c disk =
      let (disk', r) = generate c.options disk in
      elim r [
        | err e ↦ (disk', err (not_generated e))
        | ok (mode, inbounds) ↦ elim (encode inbounds) [
          | none ↦ (disk', err not_encoded)
          | some document ↦ save_outputs saving c mode document disk'
        ]
      ]

  -- `runXboardGenerateConfig`: the exit code. `none` stands for flags that do not parse.
  unfoldable pub run_generate_config : Option Command → Disk → Disk × ℕ
  unfolding generate_config normalize_node_mode
  run_generate_config none disk = (disk, 2)
  run_generate_config (some c) disk =
      if is_empty c.panel_url || is_empty c.panel_token || is_empty c.out
      then (disk, 2)
      else (let (disk', r) = generate_config (record c { options = with_mode c.options }) disk in
          (disk', elim r [ err _ ↦ 1 | ok _ ↦ 0 ]))
