-- ===== src/Agent/Config.antt =====
-- The sing-box inbounds that the agent makes of the panel's node configuration
-- (cmd/mini-sb-agent/xboard_config.go). The request to the panel, the paths
-- beside the output file and the certificate are parameters.
pub mod Cert
pub mod Generate
pub mod Settings
pub mod Panel
pub mod Sound
mod Tests
use mini_sb_xboard_agent.Base.{
  Bool, true, false, not, ◌&&◌, ◌||◌, Option, none, some, List, [], ◌∷◌, ◌==◌, if◌then◌else◌,
  Result, ok, err,
}
use mini_sb_xboard_agent.Base.Int.{ℤ, pos, ltb_ℤ, leb_ℤ, int_eq}
use mini_sb_xboard_agent.Base.Text.{Text, lit, text_eq, is_empty, trim_space, to_lower, atoi}
use mini_sb_xboard_agent.PanelApi.NodeConfig.{TlsSettings, NodeConfig}
use mini_sb_xboard_agent.TinyXboard.Api.Config.{first_non_empty}

-- `xboardGenerateOptions`, less what only tells the panel's address and the files to write.
pub record GenerateOptions : Type 0 where
  pub panel_node_id : Text
  pub panel_node_type : Text
  pub node_mode : Text
  pub vless_node_id : Text
  pub hy2_node_id : Text
  pub cert_path : Text
  pub key_path : Text

pub data ConfigError (E : Type 0) : Type 0 where
  no_vless_id : ConfigError E
  no_hy2_id : ConfigError E
  no_both_ids : ConfigError E
  unknown_mode : ConfigError E
  fetch_failed : E → ConfigError E
  bad_version : ℤ → ConfigError E
  bad_protocol : Text → ConfigError E
  no_vless_port : ConfigError E
  no_private_key : ConfigError E
  no_hy2_port : ConfigError E
  cert_failed : E → ConfigError E

-- The inbounds of sing-box that are generated, less their constant fields.
pub record VlessConfig : Type 0 where
  pub listen : Text
  pub listen_port : ℤ
  pub server_name : Text
  pub handshake_port : ℤ
  pub private_key : Text
  pub short_ids : List Text

pub record Hy2Config : Type 0 where
  pub listen : Text
  pub listen_port : ℤ
  pub server_name : Text
  pub certificate_path : Text
  pub key_path : Text
  pub up_mbps : Option ℤ
  pub down_mbps : Option ℤ
  pub obfs : Option (Text × Text)

pub data InboundConfig : Type 0 where
  vless_in : VlessConfig → InboundConfig
  hy2_in : Hy2Config → InboundConfig

abbrev pub is_one_of : Text → List Text → Bool
is_one_of v [] = false
is_one_of v (w ∷ ws) = v == w || is_one_of v ws

-- `normalizeNodeMode`
unfoldable pub normalize_node_mode : Text → Text
normalize_node_mode v =
    let s = to_lower (trim_space v) in
    if is_one_of s (lit "vless" ∷ lit "vless-reality" ∷ lit "reality" ∷ [])
    then lit "vless"
    else if is_one_of s (lit "hy2" ∷ lit "hysteria" ∷ lit "hysteria2" ∷ [])
    then lit "hy2"
    else if is_one_of s (lit "both" ∷ lit "dual" ∷ lit "all" ∷ [])
    then lit "both"
    else s

-- `mode`, after the two fallbacks.
unfoldable pub mode_of : GenerateOptions → Text
unfolding normalize_node_mode
mode_of opts =
    let mode = normalize_node_mode opts.node_mode in
    let mode' =
      if is_empty mode || mode == lit "auto"
      then normalize_node_mode opts.panel_node_type
      else mode in
    if is_empty mode' || mode' == lit "auto" then lit "vless" else mode'

abbrev pub default_listen : Text → Text
default_listen listen = if is_empty listen then lit "::" else listen

-- The port of the handshake, from the text of a `StringInt`.
unfoldable pub handshake_port_of : Text → ℤ
handshake_port_of s =
    if is_empty s
    then pos 443
    else elim (atoi s) [ none ↦ pos 443 | some p ↦ if ltb_ℤ (pos 0) p then p else pos 443 ]

-- `vlessInboundFromNodeConfig`
unfoldable pub vless_inbound :
    {E : Type 0} → NodeConfig → Text → Result (ConfigError E) InboundConfig
unfolding first_non_empty handshake_port_of
vless_inbound cfg listen =
    if leb_ℤ cfg.server_port (pos 0)
    then err no_vless_port
    else if is_empty cfg.tls_settings.private_key
    then err no_private_key
    else ok (
        vless_in (record {
          listen = listen;
          listen_port = cfg.server_port;
          server_name =
              first_non_empty (cfg.tls_settings.server_name ∷ lit "www.microsoft.com" ∷ []);
          handshake_port = handshake_port_of cfg.tls_settings.server_port;
          private_key = cfg.tls_settings.private_key;
          short_ids =
              if is_empty cfg.tls_settings.short_id then [] else cfg.tls_settings.short_id ∷ [];
        }))

abbrev pub single :
    {E : Type 0}
    → Text
    → Result (ConfigError E) InboundConfig
    → Result (ConfigError E) (Text × List InboundConfig)
single mode (err e) = err e
single mode (ok x) = ok (mode, x ∷ [])

module _ {E : Type 0} (beside : Text → Text)
    (ensure_cert : Text → Text → Text → Result E (Unit {0})) where
  -- `hy2InboundFromNodeConfig`
  unfoldable pub hy2_inbound :
      NodeConfig → GenerateOptions → Text → Result (ConfigError E) InboundConfig
  unfolding first_non_empty
  hy2_inbound cfg opts listen =
      let cert_path = if is_empty opts.cert_path then beside (lit "cert.pem") else opts.cert_path in
      let key_path = if is_empty opts.key_path then beside (lit "key.pem") else opts.key_path in
      let name =
        first_non_empty (cfg.server_name ∷ cfg.tls_settings.server_name ∷ lit "bing.com" ∷ []) in
      if leb_ℤ cfg.server_port (pos 0)
      then err no_hy2_port
      else elim (ensure_cert cert_path key_path name) [
        | err e ↦ err (cert_failed e)
        | ok _ ↦ ok (
            hy2_in (record {
              listen = listen;
              listen_port = cfg.server_port;
              server_name = name;
              certificate_path = cert_path;
              key_path = key_path;
              up_mbps = if ltb_ℤ (pos 0) cfg.up_mbps then some cfg.up_mbps else none;
              down_mbps = if ltb_ℤ (pos 0) cfg.down_mbps then some cfg.down_mbps else none;
              obfs =
                  if not (is_empty cfg.obfs) && not (is_empty cfg.obfs_password)
                  then some (cfg.obfs, cfg.obfs_password)
                  else none;
            }))
      ]

  -- `inboundFromNodeConfig`
  unfoldable pub inbound_from_node_config :
      NodeConfig → GenerateOptions → Text → Result (ConfigError E) InboundConfig
  unfolding vless_inbound hy2_inbound
  inbound_from_node_config cfg opts listen =
      let p = to_lower cfg.protocol in
      if p == lit "vless"
      then vless_inbound cfg listen
      else if p == lit "hysteria" || p == lit "hysteria2"
      then (if not (cfg.version == pos 0) && not (cfg.version == pos 2)
          then err (bad_version cfg.version)
          else hy2_inbound cfg opts listen)
      else err (bad_protocol cfg.protocol)

  -- The configuration of a node from the panel, and its inbound.
  unfoldable pub fetched_inbound :
      Result E NodeConfig → GenerateOptions → Result (ConfigError E) InboundConfig
  unfolding inbound_from_node_config
  fetched_inbound (err e) opts = err (fetch_failed e)
  fetched_inbound (ok cfg) opts = inbound_from_node_config cfg opts (default_listen cfg.listen_ip)

  -- Both nodes are asked before the first inbound is made.
  unfoldable pub generate_both :
      Text
      → Result E NodeConfig
      → Result E NodeConfig
      → GenerateOptions
      → Result (ConfigError E) (Text × List InboundConfig)
  unfolding inbound_from_node_config
  generate_both mode (err e) hy2 opts = err (fetch_failed e)
  generate_both mode (ok vless) (err e) opts = err (fetch_failed e)
  generate_both mode (ok vless) (ok hy2) opts =
      elim (inbound_from_node_config vless opts (default_listen vless.listen_ip)) [
        | err e ↦ err e
        | ok x ↦ elim (inbound_from_node_config hy2 opts (default_listen hy2.listen_ip)) [
          | err e ↦ err e
          | ok y ↦ ok (mode, x ∷ y ∷ [])
        ]
      ]

  -- `generateXboardConfig`, up to the list of the inbounds: the mode and what the panel's node of an id
  -- and a type is made into.
  unfoldable pub generate_inbounds :
      (Text → Text → Result E NodeConfig)
      → GenerateOptions
      → Result (ConfigError E) (Text × List InboundConfig)
  unfolding mode_of fetched_inbound generate_both first_non_empty
  generate_inbounds fetch opts =
      let mode = mode_of opts in
      let vless_id = first_non_empty (opts.vless_node_id ∷ opts.panel_node_id ∷ []) in
      let hy2_id = first_non_empty (opts.hy2_node_id ∷ opts.panel_node_id ∷ []) in
      if mode == lit "vless"
      then (if is_empty vless_id
          then err no_vless_id
          else single mode (fetched_inbound (fetch vless_id (lit "vless")) opts))
      else if mode == lit "hy2"
      then (if is_empty hy2_id
          then err no_hy2_id
          else single mode (fetched_inbound (fetch hy2_id (lit "hysteria")) opts))
      else if mode == lit "both"
      then (if is_empty vless_id || is_empty opts.hy2_node_id
          then err no_both_ids
          else generate_both mode (fetch vless_id (lit "vless"))
              (fetch opts.hy2_node_id (lit "hysteria")) opts)
      else err unknown_mode
