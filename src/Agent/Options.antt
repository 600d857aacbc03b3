-- ===== src/Agent/Options.antt =====
-- What `main` makes of its options (cmd/mini-sb-agent/main.go): the defaults and the tuning of the
-- sing-box options, the local users, the choice of the panel and the answers of the stats API. The
-- decoding of the options and of the user file is given.
use mini_sb_xboard_agent.Base.{
  Bool, true, not, ◌||◌, Option, none, some, List, [], map, ◌==◌, if◌then◌else◌, Result, ok, err,
}
use mini_sb_xboard_agent.Base.Int.{ℤ, pos, ltb_ℤ}
use mini_sb_xboard_agent.Base.Text.{Text, lit, text_eq, is_empty}
use mini_sb_xboard_agent.Base.Map.{Map}
use mini_sb_xboard_agent.PanelApi.{User}
use mini_sb_xboard_agent.PanelApi.Client.{Client, LocalUserFile, parse_users}
use mini_sb_xboard_agent.PanelApi.Fetch.{new_client}
use mini_sb_xboard_agent.Agent.Hook.{Hook, snapshot_all, snapshot_deltas}

-- `hy2Tuning`
pub record Hy2Tuning : Type 0 where
  pub enabled : Bool
  pub up_mbps : ℤ
  pub down_mbps : ℤ
  pub ignore_client_bandwidth : Bool
  pub brutal_debug : Bool

-- The options of a Hysteria2 inbound that the tuning touches.
pub record Hy2Options : Type 0 where
  pub up_mbps : ℤ
  pub down_mbps : ℤ
  pub ignore_client_bandwidth : Bool
  pub brutal_debug : Bool

-- An inbound of the options: its type, and its options if they are those of a Hysteria2 inbound.
pub record InboundOptions : Type 0 where
  pub type : Text
  pub hy2 : Option Hy2Options

pub record LogOptions : Type 0 where
  pub level : Text
  pub timestamp : Bool

-- `option.Options`, as far as it is touched.
pub record Options : Type 0 where
  pub log : Option LogOptions
  pub inbounds : List InboundOptions

abbrev tuned : Hy2Tuning → Hy2Options → Hy2Options
tuned t o = record {
  up_mbps = if ltb_ℤ (pos 0) t.up_mbps then t.up_mbps else o.up_mbps;
  down_mbps = if ltb_ℤ (pos 0) t.down_mbps then t.down_mbps else o.down_mbps;
  ignore_client_bandwidth = t.ignore_client_bandwidth || o.ignore_client_bandwidth;
  brutal_debug = t.brutal_debug || o.brutal_debug;
}

-- One round of the loop of `applyHY2Tuning`.
unfoldable pub tune_inbound : Hy2Tuning → InboundOptions → InboundOptions
tune_inbound t i =
    if not (i.type == lit "hysteria2")
    then i
    else elim i.hy2 [ none ↦ i | some o ↦ record i { hy2 = some (tuned t o) } ]

-- `applyHY2Tuning`
unfoldable pub apply_hy2_tuning : Hy2Tuning → Options → Options
unfolding tune_inbound
apply_hy2_tuning t opts =
    if not t.enabled then opts else record opts { inbounds = map (tune_inbound t) opts.inbounds }

-- The level of the log, if none is set.
unfoldable pub default_log : Options → Options
default_log opts = elim opts.log [
  | none ↦ record opts { log = some (record { level = lit "warn"; timestamp = true }) }
  | some log ↦
      if is_empty log.level
      then record opts { log = some (record log { level = lit "warn" }) }
      else opts
]

-- `loadOptionsWithHY2Tuning`, for what reading and decoding the file end with.
unfoldable pub load_options : {E : Type 0} → Result E Options → Hy2Tuning → Result E Options
unfolding default_log apply_hy2_tuning
load_options (err e) t = err e
load_options (ok opts) t = ok (apply_hy2_tuning t (default_log opts))

-- `hy2TuningEnabled` and the tuning of `main`.
unfoldable pub tuning_of : ℤ → ℤ → Bool → Bool → Hy2Tuning
tuning_of up down ignore_client debug = record {
  enabled = ltb_ℤ (pos 0) up || ltb_ℤ (pos 0) down || ignore_client || debug;
  up_mbps = up;
  down_mbps = down;
  ignore_client_bandwidth = ignore_client;
  brutal_debug = debug;
}

-- `loadLocalUsers`, for what the reading and the decoding of a path end with.
unfoldable pub load_local_users :
    {E : Type 0} → (Text → Result E LocalUserFile) → Text → Result E (List User)
unfolding parse_users
load_local_users read path =
    if is_empty path
    then ok []
    else elim (read path) [ err e ↦ err e | ok file ↦ ok (parse_users file) ]

-- The flags that choose the panel.
pub record PanelFlags : Type 0 where
  pub panel_url : Text
  pub panel_token : Text
  pub panel_node_id : Text
  pub panel_node_type : Text
  pub panel_hy2_node_id : Text
  pub panel_hy2_node_type : Text
  pub users : Text

-- The panel of the synchroniser: one client, two of them as a `MultiPanel`, the local file, or none.
pub data PanelChoice : Type 0 where
  no_panel : PanelChoice
  one_client : Client → PanelChoice
  two_clients : Client → Client → PanelChoice
  local_users : Text → PanelChoice

unfoldable pub choose_panel : PanelFlags → PanelChoice
unfolding new_client
choose_panel f =
    let primary = new_client f.panel_url f.panel_token f.panel_node_id f.panel_node_type in
    if not (is_empty f.panel_url)
    then (if not (is_empty f.panel_hy2_node_id)
        then two_clients primary
            (new_client f.panel_url f.panel_token f.panel_hy2_node_id f.panel_hy2_node_type)
        else one_client primary)
    else if not (is_empty f.users)
    then local_users f.users
    else no_panel

-- `/stats`: what is encoded for the two parameters of the query.
unfoldable pub stats : Text → Text → Hook → Map Text (Map Text (ℤ × ℤ))
unfolding snapshot_all snapshot_deltas
stats reset delta h =
    if delta == lit "1" then snapshot_deltas h else snapshot_all (reset == lit "1") h
