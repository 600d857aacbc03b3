-- ===== src/Agent/Config/Tests.antt =====
-- The theorems on the agent's configuration at concrete inputs.
use mini_sb_xboard_agent.Base.{
  ◌≡◌, ◌≢◌, refl, Option, List, ap, true, false, some, [], ◌∷◌, arith, Result, ok, err,
}
use mini_sb_xboard_agent.Base.Int.{pos}
use mini_sb_xboard_agent.Base.Text.{Text, lit, text_eq, text_beq, trim_space, to_lower}
use mini_sb_xboard_agent.Base.Map.{Map, lookup, contains}
use mini_sb_xboard_agent.TinyXboard.Schema.{NodeEntry}
use mini_sb_xboard_agent.TinyXboard.NodeType.{normalize_node_type, is_served_type, vless}
use mini_sb_xboard_agent.TinyXboard.Validate.{validate_node_entry}
use mini_sb_xboard_agent.TinyXboard.Fixtures.{vless_node}
use mini_sb_xboard_agent.TinyXboard.Api.Config.{Json, node_config_response, first_non_empty}
use mini_sb_xboard_agent.PanelApi.NodeConfig.{
  NodeConfig, DecodeError, node_config_of, decode_node_config,
}
use mini_sb_xboard_agent.Agent.Config.{
  GenerateOptions, vless_in, fetched_inbound, generate_inbounds, ConfigError, InboundConfig, single,
  mode_of, normalize_node_mode,
}
use mini_sb_xboard_agent.Agent.Config.Cert.{
  Disk, Making, written, not_opened, not_written, write_file, write_pair, ensure_self_signed_cert,
}
use mini_sb_xboard_agent.Agent.Config.Cert.Laws.{
  IsMatched, HasCert, ensure-HasCert, ensure_mismatch,
}
use mini_sb_xboard_agent.Agent.Config.Generate.{
  Command, Saving, with_mode, run_generate_config, generate_config, save_outputs, save_file,
}
use mini_sb_xboard_agent.Agent.Config.Generate.Laws.{Generated, run_generate_config_saves}
use mini_sb_xboard_agent.Agent.Config.Panel.{panel_inbound}
use mini_sb_xboard_agent.Agent.Config.Sound.{OnOk, IsGenerated, generate_inbounds-IsGenerated}

-- A node with a Reality key.
abbrev reality_node : NodeEntry
reality_node = record vless_node {
  tls = record {
    enabled = true;
    server_name = lit "example.org";
    server_port = pos 8443;
    public_key = lit "pub";
    private_key = lit "priv";
    short_id = lit "ab";
    allow_insecure = false;
  };
}

reality_node_valid : validate_node_entry reality_node ≡ ok tt
unfolding validate_node_entry is_served_type normalize_node_type to_lower trim_space text_beq
reality_node_valid = refl

reality_node_served : normalize_node_type reality_node.type ≡ vless
unfolding normalize_node_type to_lower trim_space text_beq
reality_node_served = refl

abbrev beside : Text → Text
beside name = name

abbrev certified : Text → Text → Text → Result (DecodeError Text) (Unit {0})
certified cert_path key_path name = ok tt

abbrev unmarshal : Map Text Json → Result Text NodeConfig
unmarshal m = ok (node_config_of m)

abbrev opts : GenerateOptions
opts = record {
  panel_node_id = lit "1";
  panel_node_type = [];
  node_mode = lit "Reality";
  vless_node_id = [];
  hy2_node_id = [];
  cert_path = [];
  key_path = [];
}

abbrev answer : Result (DecodeError Text) NodeConfig
answer = decode_node_config unmarshal unmarshal (node_config_response reality_node)

abbrev reality_inbound : InboundConfig
reality_inbound = vless_in (record {
  listen = lit "0.0.0.0";
  listen_port = pos 8443;
  server_name = lit "example.org";
  handshake_port = pos 8443;
  private_key = lit "priv";
  short_ids = lit "ab" ∷ [];
})

panel_inbound_example : fetched_inbound beside certified answer opts ≡ ok reality_inbound
unfolding first_non_empty
panel_inbound_example =
    panel_inbound beside certified unmarshal unmarshal reality_node opts reality_node_valid
      reality_node_served refl refl (omega arith)

generate_inbounds-IsGenerated_example :
    OnOk
      (IsGenerated beside certified)
      (generate_inbounds beside certified (λ id type. answer) opts)
generate_inbounds-IsGenerated_example =
    generate_inbounds-IsGenerated beside certified (λ id type. answer) opts

-- A certificate belongs to the key that it names.
abbrev Named : Text → Text → Type 0
Named cert key = cert ≡ key

abbrev fresh_pair : Making Text
fresh_pair = record {
  directories = true;
  pair = λ name. ok (lit "new", lit "new");
  cert_write = written;
  key_write = written;
}

abbrev key_locked : Making Text
key_locked = record fresh_pair { key_write = not_opened }

abbrev old_key : Disk
old_key = (lit "key.pem", lit "old") ∷ []

paths_apart : lit "cert.pem" ≢ lit "key.pem"
unfolding text_beq
paths_apart e = absurd (ground (arith, ap (text_beq (lit "cert.pem")) e))

no_cert_yet : IsMatched Named (lit "cert.pem") (lit "key.pem") old_key
unfolding lookup text_beq
no_cert_yet cert key c k = absurd (ground (arith, c))

named : (name cert key : Text) → fresh_pair.pair name ≡ ok (cert, key) → Named cert key
named name cert key e = ground (arith, e)

ensure-HasCert_example :
    HasCert Named
      (lit "cert.pem")
      (lit "key.pem")
      (ensure_self_signed_cert fresh_pair
        (lit "cert.pem")
        (lit "key.pem")
        (lit "bing.com")
        old_key).0
unfolding ensure_self_signed_cert write_pair write_file contains text_beq
ensure-HasCert_example =
    ensure-HasCert Named fresh_pair (lit "cert.pem") (lit "key.pem") paths_apart named
      (lit "bing.com") old_key no_cert_yet refl

ensure_mismatch_example :
    let after =
      ensure_self_signed_cert key_locked
        (lit "cert.pem")
        (lit "key.pem")
        (lit "bing.com")
        old_key in
    (after.1 ≡ err not_written)
    × (lookup (lit "cert.pem") after.0 ≡ some (lit "new"))
    × (lookup (lit "key.pem") after.0 ≡ some (lit "old"))
    × (ensure_self_signed_cert fresh_pair (lit "cert.pem") (lit "key.pem") (lit "bing.com") after.0
        ≡ (after.0, ok tt))
unfolding lookup text_beq
ensure_mismatch_example =
    ensure_mismatch key_locked fresh_pair (lit "cert.pem") (lit "key.pem") (lit "bing.com")
      (lit "bing.com") (lit "new") (lit "new") (lit "old") old_key paths_apart refl refl refl refl
      refl refl refl

abbrev unlocked : Saving
unlocked = record {
  out_directory = true;
  out_write = written;
  mode_directory = true;
  mode_write = written;
}

abbrev command : Command
command = record {
  panel_url = lit "https://panel.example";
  panel_token = lit "secret";
  out = lit "config.json";
  node_type_out = lit "mode";
  options = opts;
}

abbrev generate :
    GenerateOptions
    → Disk
    → Disk × Result (ConfigError (DecodeError Text)) (Text × List InboundConfig)
generate o disk = (disk, generate_inbounds beside certified (λ id type. answer) o)

abbrev encode : List InboundConfig → Option Text
encode inbounds = some (lit "{}")

outputs_apart : lit "config.json" ≢ lit "mode"
unfolding text_beq
outputs_apart e = absurd (ground (arith, ap (text_beq (lit "config.json")) e))

generated_alone : (generate (with_mode opts) old_key).1 ≡ ok (lit "vless", reality_inbound ∷ [])
unfolding generate_inbounds mode_of normalize_node_mode to_lower trim_space text_beq first_non_empty
generated_alone = ap (single (lit "vless")) panel_inbound_example

command_succeeds : (run_generate_config generate encode unlocked (some command) old_key).1 ≡ 0
unfolding run_generate_config generate_config save_outputs save_file write_file
command_succeeds = rw generated_alone refl

run_generate_config_saves_example :
    Generated generate encode unlocked command old_key
      (run_generate_config generate encode unlocked (some command) old_key).0
run_generate_config_saves_example =
    run_generate_config_saves generate encode unlocked command old_key outputs_apart
      command_succeeds
