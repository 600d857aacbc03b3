-- ===== src/Agent/Config/Panel.antt =====
-- From a node of tiny-xboard to the inbound of its agent: the answer of `NodeConfigResponse`
-- (tiny-xboard/api.go) read by `decodeNodeConfig` (panelapi/node_config.go) and made into an inbound
-- (cmd/mini-sb-agent/xboard_config.go).
use mini_sb_xboard_agent.Base.{
  ◌≡◌, ◌≢◌, refl, sym, ap, ◌∙◌, false, none, some, [], ◌∷◌, arith, if◌then◌else◌, Result, ok,
  Bool-cases, inl, inr,
}
use mini_sb_xboard_agent.Base.Int.{ℤ, pos, ltb_ℤ, leb_ℤ, int_eq, IsInt64}
use mini_sb_xboard_agent.Base.Text.{
  Text, lit, text_eq, text_beq, to_lower, is_empty, itoa, atoi, atoi-itoa,
}
use mini_sb_xboard_agent.Base.Map.{Map, lookup}
use mini_sb_xboard_agent.TinyXboard.Schema.{NodeEntry}
use mini_sb_xboard_agent.TinyXboard.NodeType.{normalize_node_type, vless, both}
use mini_sb_xboard_agent.TinyXboard.Validate.{validate_node_entry}
use mini_sb_xboard_agent.TinyXboard.Validate.Laws.{validate_node_entry_iff}
use mini_sb_xboard_agent.TinyXboard.Api.Config.{
  Plain, text, Json, plain, object, put_tls_settings, vless_fields, protocol_fields,
  vless_tls_settings, node_config_response, or_default, first_non_empty,
}
use mini_sb_xboard_agent.TinyXboard.Api.Config.Laws.{
  other_key, other_key_if, same_key, beside_base, other_than_tls, served_config, protocol_name,
}
use mini_sb_xboard_agent.PanelApi.NodeConfig.{
  text_of, plain_of, object_of, int_of, tls_settings_of, NodeConfig, DecodeError, node_config_of,
  decode_node_config,
}
use mini_sb_xboard_agent.Agent.Config.{
  vless_in, GenerateOptions, fetched_inbound, VlessConfig, default_listen, handshake_port_of,
}
use mini_sb_xboard_agent.Agent.Config.Settings.{
  tls-server_name, tls-server_port, tls-private_key, tls-short_id,
}

object_of-put_tls_settings :
    (ts : Map Text Plain) (m : Map Text Json)
    → lookup (lit "tls_settings") m ≡ none
    → object_of (lookup (lit "tls_settings") (put_tls_settings ts m)) ≡ ts
unfolding put_tls_settings
object_of-put_tls_settings [] m absent = ap object_of absent
object_of-put_tls_settings (x ∷ ts) m absent =
    ap object_of (same_key (lit "tls_settings") (object (x ∷ ts)) m)

module _ (e : NodeEntry) (port : ℤ) where
  fields-tls_settings :
      object_of (lookup (lit "tls_settings") (vless_fields e port)) ≡ vless_tls_settings e.tls
  unfolding vless_fields text_beq lookup
  fields-tls_settings = object_of-put_tls_settings (vless_tls_settings e.tls) _ (
      other_key (lit "tls_settings") (lit "tls") _ _ refl
      ∙ other_key_if _ (lit "tls_settings") (lit "decryption") _ _ refl
      ∙ other_key_if _ (lit "tls_settings") (lit "flow") _ _ refl
      ∙ other_key (lit "tls_settings") (lit "network") _ _ refl
      ∙ other_key (lit "tls_settings") (lit "server_port") _ _ refl
      ∙ other_key (lit "tls_settings") (lit "listen_ip") _ _ refl
      ∙ other_key (lit "tls_settings") (lit "protocol") _ [] refl)

  fields-listen_ip :
      text_of (plain_of (lookup (lit "listen_ip") (vless_fields e port))) ≡ e.server.listen
  unfolding vless_fields text_beq
  fields-listen_ip =
      ap (λ o. text_of (plain_of o))
        (other_than_tls (lit "listen_ip") _ _ refl
          ∙ other_key (lit "listen_ip") (lit "tls") _ _ refl
          ∙ other_key_if _ (lit "listen_ip") (lit "decryption") _ _ refl
          ∙ other_key_if _ (lit "listen_ip") (lit "flow") _ _ refl
          ∙ other_key (lit "listen_ip") (lit "network") _ _ refl
          ∙ other_key (lit "listen_ip") (lit "server_port") _ _ refl
          ∙ same_key (lit "listen_ip") _ _)

module _ (e : NodeEntry) (valid : validate_node_entry e ≡ ok tt)
    (served : normalize_node_type e.type ≡ vless) where
  Read : NodeConfig
  Read = node_config_of (node_config_response e)

  read_fields :
      (k : Text)
      → text_beq (lit "base_config") k ≡ false
      → lookup k (node_config_response e)
        ≡ lookup k (vless_fields e (or_default (pos 443) e.server.port))
  unfolding protocol_fields text_beq
  read_fields k n = beside_base e k n ∙ rw served refl

  not_both : normalize_node_type e.type ≢ both
  unfolding text_beq
  not_both is_both = absurd (ground (arith, sym served ∙ is_both))

  read_config :
      (Read.protocol ≡ lit "vless")
      × (Read.server_port ≡ e.server.port)
      × (Read.listen_ip ≡ e.server.listen)
      × (Read.tls_settings ≡ tls_settings_of (vless_tls_settings e.tls))
  unfolding Read node_config_of text_beq
  read_config =
      let (protocol, port, _) = served_config e valid not_both in
      (
        ap (λ o. text_of (plain_of o))
            (protocol ∙ ap (λ t. some (plain (text (protocol_name t)))) served),
        ap (λ o. int_of (plain_of o)) port,
        ap (λ o. text_of (plain_of o)) (read_fields (lit "listen_ip") refl)
            ∙ fields-listen_ip e (or_default (pos 443) e.server.port),
        ap (λ o. tls_settings_of (object_of o)) (read_fields (lit "tls_settings") refl)
            ∙ ap tls_settings_of (fields-tls_settings e (or_default (pos 443) e.server.port)),
      )

not_empty : (s : Text) (z : ℤ) → atoi s ≡ some z → is_empty s ≡ false
unfolding atoi
not_empty [] z read = absurd (ground arith)
not_empty (c ∷ s) z read = refl

handshake_port_read :
    (p : ℤ)
    → IsInt64 p
    → handshake_port_of (if ltb_ℤ (pos 0) p then itoa p else [])
      ≡ (if ltb_ℤ (pos 0) p then p else pos 443)
unfolding handshake_port_of
handshake_port_read p fits = elim (Bool-cases (ltb_ℤ (pos 0) p)) [
  | inl positive ↦
      rw
        (
          positive,
          handshake_port_of,
          not_empty (itoa p) p (atoi-itoa p fits),
          atoi-itoa p fits,
          positive,
        )
        refl
  | inr other ↦ rw other refl
]

-- The inbound as its fields.
abbrev vless_config : Text → ℤ → Text → ℤ → Text → Text → VlessConfig
vless_config listen port name handshake key id = record {
  listen = listen;
  listen_port = port;
  server_name = first_non_empty (name ∷ lit "www.microsoft.com" ∷ []);
  handshake_port = handshake;
  private_key = key;
  short_ids = if is_empty id then [] else id ∷ [];
}

module _ {E : Type 0} (beside : Text → Text)
    (ensure_cert : Text → Text → Text → Result E (Unit {0})) where
  vless_made :
      (cfg : NodeConfig) (opts : GenerateOptions)
      → cfg.protocol ≡ lit "vless"
      → leb_ℤ cfg.server_port (pos 0) ≡ false
      → is_empty cfg.tls_settings.private_key ≡ false
      → fetched_inbound beside ensure_cert (ok cfg) opts
        ≡ ok (
            vless_in (
              vless_config
                (default_listen cfg.listen_ip)
                cfg.server_port
                cfg.tls_settings.server_name
                (handshake_port_of cfg.tls_settings.server_port)
                cfg.tls_settings.private_key
                cfg.tls_settings.short_id))
  unfolding fetched_inbound text_beq to_lower
  vless_made cfg opts protocol port key = rw (fetched_inbound, protocol, port, key) refl

module _ {F : Type 0} (beside : Text → Text)
    (ensure_cert : Text → Text → Text → Result (DecodeError F) (Unit {0}))
    (unmarshal unmarshal_data : Map Text Json → Result F NodeConfig) (e : NodeEntry)
    (opts : GenerateOptions) (valid : validate_node_entry e ≡ ok tt)
    (served : normalize_node_type e.type ≡ vless)
    (reads : unmarshal (node_config_response e) ≡ ok (node_config_of (node_config_response e)))
    (keyed : is_empty e.tls.private_key ≡ false) (fits : IsInt64 e.tls.server_port) where
  abbrev answer : Result (DecodeError F) NodeConfig
  answer = decode_node_config unmarshal unmarshal_data (node_config_response e)

  decoded : answer ≡ ok (Read e valid served)
  unfolding decode_node_config Read
  decoded = rw (decode_node_config, reads, (read_config e valid served).0) refl

  -- The agent of a valid VLESS node, from the answer of tiny-xboard, listens where the node says, with
  -- the private key, the short id, the server name and the handshake port of its document, or the
  -- defaults for an empty name and a port that is not positive. The document has a private key, and
  -- `json.Unmarshal` is taken to read each field of the answer by its tag.
  pub panel_inbound :
      fetched_inbound beside ensure_cert
        (decode_node_config unmarshal unmarshal_data (node_config_response e))
        opts
      ≡ ok (
          vless_in (record {
            listen = default_listen e.server.listen;
            listen_port = e.server.port;
            server_name = first_non_empty (e.tls.server_name ∷ lit "www.microsoft.com" ∷ []);
            handshake_port = if ltb_ℤ (pos 0) e.tls.server_port then e.tls.server_port else pos 443;
            private_key = e.tls.private_key;
            short_ids = if is_empty e.tls.short_id then [] else e.tls.short_id ∷ [];
          }))
  unfolding tls_settings_of
  panel_inbound =
      let cfg = Read e valid served in
      let (protocol, port, listen, tls) = read_config e valid served in
      let name = ap (λ t. t.server_name) tls ∙ tls-server_name e.tls in
      let handshake = ap (λ t. t.server_port) tls ∙ tls-server_port e.tls in
      let key = ap (λ t. t.private_key) tls ∙ tls-private_key e.tls in
      let id = ap (λ t. t.short_id) tls ∙ tls-short_id e.tls in
      ap (λ o. fetched_inbound beside ensure_cert o opts) decoded
      ∙ vless_made beside ensure_cert cfg opts protocol
          (ap (λ p. leb_ℤ p (pos 0)) port
            ∙ ground (arith, ((validate_node_entry_iff e).0 valid).port_low))
          (ap is_empty key ∙ keyed)
      ∙ rw (listen, port, name, handshake, key, id, handshake_port_read e.tls.server_port fits) refl
