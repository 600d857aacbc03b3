-- ===== src/PanelApi/NodeConfig.antt =====
-- The configuration of a node as the agent reads it (panelapi/node_config.go). What `json.Unmarshal`
-- makes of the answer is a parameter.
use mini_sb_xboard_agent.Base.{
  Bool, false, ◌&&◌, Option, none, some, List, [], ◌∷◌, ◌==◌, if◌then◌else◌, Result, ok, err,
}
use mini_sb_xboard_agent.Base.Int.{ℤ, pos, int_eq}
use mini_sb_xboard_agent.Base.Text.{Text, lit, text_eq, is_empty, itoa}
use mini_sb_xboard_agent.Base.Map.{Map, lookup}
use mini_sb_xboard_agent.TinyXboard.Api.Config.{Plain, text, number, flag, Json, plain, object}

-- `TLSSettings`, less its ECH; a `StringInt` is its text.
pub record TlsSettings : Type 0 where
  pub server_name : Text
  pub server_port : Text
  pub public_key : Text
  pub private_key : Text
  pub short_id : Text
  pub allow_insecure : Bool

-- The fields of `NodeConfig` that the agent reads.
pub record NodeConfig : Type 0 where
  pub protocol : Text
  pub listen_ip : Text
  pub server_port : ℤ
  pub tls_settings : TlsSettings
  pub version : ℤ
  pub server_name : Text
  pub up_mbps : ℤ
  pub down_mbps : ℤ
  pub obfs : Text
  pub obfs_password : Text

-- `StringInt.UnmarshalJSON`: a JSON text, or an integer as its digits.
unfoldable pub string_int : Plain → Option Text
string_int (text t) = some t
string_int (number n) = some (itoa n)
string_int (flag b) = none

-- A field as the type that it is read into; a field that is left out is the zero value.
abbrev pub text_of : Option Plain → Text
text_of none = []
text_of (some (text t)) = t
text_of (some (number n)) = []
text_of (some (flag b)) = []

abbrev pub int_of : Option Plain → ℤ
int_of none = pos 0
int_of (some (text t)) = pos 0
int_of (some (number n)) = n
int_of (some (flag b)) = pos 0

abbrev pub flag_of : Option Plain → Bool
flag_of none = false
flag_of (some (text t)) = false
flag_of (some (number n)) = false
flag_of (some (flag b)) = b

abbrev pub text_or_empty : Option Text → Text
text_or_empty none = []
text_or_empty (some t) = t

abbrev pub string_int_of : Option Plain → Text
string_int_of none = []
string_int_of (some p) = text_or_empty (string_int p)

abbrev pub plain_of : Option Json → Option Plain
plain_of none = none
plain_of (some (plain p)) = some p
plain_of (some (object o)) = none

abbrev pub object_of : Option Json → Map Text Plain
object_of none = []
object_of (some (plain p)) = []
object_of (some (object o)) = o

-- The tags of `TLSSettings` and of `NodeConfig`.
unfoldable pub tls_settings_of : Map Text Plain → TlsSettings
unfolding string_int
tls_settings_of m = record {
  server_name = text_of (lookup (lit "server_name") m);
  server_port = string_int_of (lookup (lit "server_port") m);
  public_key = text_of (lookup (lit "public_key") m);
  private_key = text_of (lookup (lit "private_key") m);
  short_id = text_of (lookup (lit "short_id") m);
  allow_insecure = flag_of (lookup (lit "allow_insecure") m);
}

unfoldable pub node_config_of : Map Text Json → NodeConfig
unfolding tls_settings_of
node_config_of m = record {
  protocol = text_of (plain_of (lookup (lit "protocol") m));
  listen_ip = text_of (plain_of (lookup (lit "listen_ip") m));
  server_port = int_of (plain_of (lookup (lit "server_port") m));
  tls_settings = tls_settings_of (object_of (lookup (lit "tls_settings") m));
  version = int_of (plain_of (lookup (lit "version") m));
  server_name = text_of (plain_of (lookup (lit "server_name") m));
  up_mbps = int_of (plain_of (lookup (lit "up_mbps") m));
  down_mbps = int_of (plain_of (lookup (lit "down_mbps") m));
  obfs = text_of (plain_of (lookup (lit "obfs") m));
  obfs_password = text_of (plain_of (lookup (lit "obfs-password") m));
}

pub data DecodeError (E : Type 0) : Type 0 where
  bad_json : E → DecodeError E
  missing_config : DecodeError E

-- Neither a protocol nor a port.
abbrev pub is_blank : NodeConfig → Bool
is_blank cfg = is_empty cfg.protocol && cfg.server_port == pos 0

module _ {Raw E : Type 0} (unmarshal unmarshal_data : Raw → Result E NodeConfig) where
  -- The second try: the configuration under the key `data`.
  decode_wrapped : Raw → Result (DecodeError E) NodeConfig
  decode_wrapped raw = elim (unmarshal_data raw) [
    | err e ↦ err (bad_json e)
    | ok cfg ↦ if is_blank cfg then err missing_config else ok cfg
  ]

  -- `decodeNodeConfig`
  unfoldable pub decode_node_config : Raw → Result (DecodeError E) NodeConfig
  unfolding decode_wrapped
  decode_node_config raw = elim (unmarshal raw) [
    | err e ↦ decode_wrapped raw
    | ok cfg ↦ if is_blank cfg then decode_wrapped raw else ok cfg
  ]

-- The loop of `ProbeNodeConfig`: the first node type that is answered, or the last error.
unfoldable pub probe :
    {E : Type 0}
    → (Text → Result E NodeConfig)
    → List Text
    → Option E
    → Result (Option E) (Text × NodeConfig)
probe fetch [] last = err last
probe fetch (t ∷ ts) last = elim (fetch t) [
  | err e ↦ probe fetch ts (some e)
  | ok cfg ↦ ok (t, cfg)
]

unfoldable pub probe_node_config :
    {E : Type 0} → (Text → Result E NodeConfig) → Result (Option E) (Text × NodeConfig)
unfolding probe
probe_node_config fetch = probe fetch (lit "vless" ∷ lit "hysteria2" ∷ lit "hysteria" ∷ []) none
