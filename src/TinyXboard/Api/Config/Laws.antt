-- ===== src/TinyXboard/Api/Config/Laws.antt =====
-- What an agent finds in the configuration of a node (tiny-xboard/api.go).
use mini_sb_xboard_agent.Base.{
  ◌≡◌, ◌≢◌, ◌⊎◌, refl, Bool, true, false, none, some, [], ◌∷◌, arith, ◌==◌, Bool-cases, inl, inr,
  if◌then◌else◌, ok, ◌∙◌,
}
use mini_sb_xboard_agent.Base.Int.{ℤ, pos}
use mini_sb_xboard_agent.Base.Text.{Text, lit, text_eq, text_beq, text_beq_iff}
use mini_sb_xboard_agent.Base.Map.{Map, lookup, put, lookup-put}
use mini_sb_xboard_agent.TinyXboard.Schema.{NodeEntry, default_sync_interval}
use mini_sb_xboard_agent.TinyXboard.NodeType.{normalize_node_type, vless, hy2, both, is_served_type}
use mini_sb_xboard_agent.TinyXboard.Validate.{validate_node_entry}
use mini_sb_xboard_agent.TinyXboard.Validate.Laws.{validate_node_entry_iff}
use mini_sb_xboard_agent.TinyXboard.Api.Config.{
  Plain, text, number, Json, plain, object, put_if, put_tls_settings, vless_fields, hy2_fields,
  protocol_fields, node_config_response, base_config, or_default,
}

-- A field under another key does not matter.
pub other_key :
    {V : Type 0}
    → (j k : Text) (v : V) (m : Map Text V) → text_beq k j ≡ false
    → lookup j (put k v m) ≡ lookup j m
other_key j k v m n = rw (lookup-put j k v m, n) refl

pub other_key_if :
    {V : Type 0}
    → (c : Bool) (j k : Text) (v : V) (m : Map Text V) → text_beq k j ≡ false
    → lookup j (put_if c k v m) ≡ lookup j m
unfolding put_if
other_key_if true j k v m n = other_key j k v m n
other_key_if false j k v m n = refl

pub same_key : {V : Type 0} → (k : Text) (v : V) (m : Map Text V) → lookup k (put k v m) ≡ some v
same_key k v m = rw (lookup-put k k v m, (text_beq_iff k k).1 refl) refl

pub other_than_tls :
    (j : Text) (ts : Map Text Plain) (m : Map Text Json)
    → text_beq (lit "tls_settings") j ≡ false
    → lookup j (put_tls_settings ts m) ≡ lookup j m
unfolding put_tls_settings
other_than_tls j [] m n = refl
other_than_tls j (x ∷ ts) m n = other_key j (lit "tls_settings") (object (x ∷ ts)) m n

module _ (e : NodeEntry) (port : ℤ) where
  vless-protocol : lookup (lit "protocol") (vless_fields e port) ≡ some (plain (text vless))
  unfolding vless_fields text_beq
  vless-protocol =
      other_than_tls (lit "protocol") _ _ refl
      ∙ other_key (lit "protocol") (lit "tls") _ _ refl
      ∙ other_key_if _ (lit "protocol") (lit "decryption") _ _ refl
      ∙ other_key_if _ (lit "protocol") (lit "flow") _ _ refl
      ∙ other_key (lit "protocol") (lit "network") _ _ refl
      ∙ other_key (lit "protocol") (lit "server_port") _ _ refl
      ∙ other_key (lit "protocol") (lit "listen_ip") _ _ refl
      ∙ same_key (lit "protocol") _ _

  vless-server_port : lookup (lit "server_port") (vless_fields e port) ≡ some (plain (number port))
  unfolding vless_fields text_beq
  vless-server_port =
      other_than_tls (lit "server_port") _ _ refl
      ∙ other_key (lit "server_port") (lit "tls") _ _ refl
      ∙ other_key_if _ (lit "server_port") (lit "decryption") _ _ refl
      ∙ other_key_if _ (lit "server_port") (lit "flow") _ _ refl
      ∙ other_key (lit "server_port") (lit "network") _ _ refl
      ∙ same_key (lit "server_port") _ _

  hy2-protocol : lookup (lit "protocol") (hy2_fields e port) ≡ some (plain (text (lit "hysteria")))
  unfolding hy2_fields text_beq
  hy2-protocol =
      other_than_tls (lit "protocol") _ _ refl
      ∙ other_key_if _ (lit "protocol") (lit "server_name") _ _ refl
      ∙ other_key (lit "protocol") (lit "listen_ip") _ _ refl
      ∙ other_key (lit "protocol") (lit "server_port") _ _ refl
      ∙ other_key (lit "protocol") (lit "version") _ _ refl
      ∙ same_key (lit "protocol") _ _

  hy2-server_port : lookup (lit "server_port") (hy2_fields e port) ≡ some (plain (number port))
  unfolding hy2_fields text_beq
  hy2-server_port =
      other_than_tls (lit "server_port") _ _ refl
      ∙ other_key_if _ (lit "server_port") (lit "server_name") _ _ refl
      ∙ other_key (lit "server_port") (lit "listen_ip") _ _ refl
      ∙ same_key (lit "server_port") _ _

pub beside_base :
    (e : NodeEntry) (j : Text)
    → text_beq (lit "base_config") j ≡ false
    → lookup j (node_config_response e)
      ≡ lookup j (protocol_fields e (or_default (pos 443) e.server.port))
unfolding node_config_response
beside_base e j n = other_key j (lit "base_config") _ _ n

port_stays :
    (e : NodeEntry)
    → validate_node_entry e ≡ ok tt
    → or_default (pos 443) e.server.port ≡ e.server.port
port_stays e v = ground (arith, ((validate_node_entry_iff e).0 v).port_low)

one_protocol :
    (t : Text)
    → is_served_type t ≡ true
    → normalize_node_type t ≢ both
    → (normalize_node_type t ≡ vless) ⊎ (normalize_node_type t ≡ hy2)
unfolding is_served_type
one_protocol t s n = elim (Bool-cases (normalize_node_type t == vless)) [
  | inl v ↦ inl ((text_beq_iff (normalize_node_type t) vless).0 v)
  | inr v ↦ elim (Bool-cases (normalize_node_type t == hy2)) [
    | inl h ↦ inr ((text_beq_iff (normalize_node_type t) hy2).0 h)
    | inr h ↦ absurd (ground (arith, text_beq_iff (normalize_node_type t) both))
  ]
]

-- The protocol that an agent reads for a node type.
abbrev pub protocol_name : Text → Text
protocol_name t = if t == vless then vless else lit "hysteria"

-- The configuration of a valid node that serves VLESS or Hysteria 2, but not both, names the protocol
-- and the port of the node, and carries its interval twice, or 60 seconds if that is not positive.
pub served_config :
    (e : NodeEntry)
    → validate_node_entry e ≡ ok tt
    → normalize_node_type e.type ≢ both
    → (lookup (lit "protocol") (node_config_response e)
        ≡ some (plain (text (protocol_name (normalize_node_type e.type)))))
      × (lookup (lit "server_port") (node_config_response e) ≡ some (plain (number e.server.port)))
      × (lookup (lit "base_config") (node_config_response e)
          ≡ some (base_config (or_default default_sync_interval e.runtime.sync_interval)))
unfolding protocol_fields node_config_response text_beq
served_config e v n =
    let base =
      same_key (lit "base_config")
        (base_config (or_default default_sync_interval e.runtime.sync_interval))
        (protocol_fields e (or_default (pos 443) e.server.port)) in
    elim (one_protocol e.type ((validate_node_entry_iff e).0 v).type_served n) [
      | inl t ↦ (
        beside_base e (lit "protocol") refl ∙ rw t (vless-protocol e _),
        beside_base e (lit "server_port") refl
            ∙ rw (t, port_stays e v) (vless-server_port e e.server.port),
        base,
      )
      | inr t ↦ (
        beside_base e (lit "protocol") refl ∙ rw t (hy2-protocol e _),
        beside_base e (lit "server_port") refl
            ∙ rw (t, port_stays e v) (hy2-server_port e e.server.port),
        base,
      )
    ]

-- The configuration of a node that serves both names no protocol and no port.
pub both_config :
    (e : NodeEntry)
    → normalize_node_type e.type ≡ both
    → (lookup (lit "protocol") (node_config_response e) ≡ none)
      × (lookup (lit "server_port") (node_config_response e) ≡ none)
      × (lookup (lit "data") (node_config_response e) ≡ none)
unfolding protocol_fields lookup text_beq
both_config e b = (
  beside_base e (lit "protocol") refl ∙ rw b refl,
  beside_base e (lit "server_port") refl ∙ rw b refl,
  beside_base e (lit "data") refl ∙ rw b refl,
)
