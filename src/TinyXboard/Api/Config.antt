-- ===== src/TinyXboard/Api/Config.antt =====
-- `NodeConfigResponse` (tiny-xboard/api.go): a node as the configuration that the agents read, a JSON
-- object whose values are plain or objects of plain values.
pub mod Laws
use mini_sb_xboard_agent.Base.{Bool, true, false, not, List, [], ◌∷◌, ◌==◌, if◌then◌else◌}
use mini_sb_xboard_agent.Base.Int.{ℤ, pos, leb_ℤ, ltb_ℤ}
use mini_sb_xboard_agent.Base.Text.{Text, lit, text_eq, is_empty, itoa}
use mini_sb_xboard_agent.Base.Map.{Map, put}
use mini_sb_xboard_agent.TinyXboard.Schema.{NodeEntry, TlsCfg, default_sync_interval}
use mini_sb_xboard_agent.TinyXboard.NodeType.{normalize_node_type, vless, hy2}

pub data Plain : Type 0 where
  text : Text → Plain
  number : ℤ → Plain
  flag : Bool → Plain

pub data Json : Type 0 where
  plain : Plain → Json
  object : Map Text Plain → Json

-- `firstNonEmpty`
unfoldable pub first_non_empty : List Text → Text
first_non_empty [] = []
first_non_empty (v ∷ vs) = if not (is_empty v) then v else first_non_empty vs

-- `if c { m[k] = v }`
unfoldable pub put_if : {A : Type 0} → Bool → Text → A → Map Text A → Map Text A
put_if c k v m = if c then put k v m else m

abbrev put_text : Text → Text → Map Text Json → Map Text Json
put_text k v = put k (plain (text v))

abbrev put_number : Text → ℤ → Map Text Json → Map Text Json
put_number k n = put k (plain (number n))

unfoldable pub vless_tls_settings : TlsCfg → Map Text Plain
vless_tls_settings t = put_if t.allow_insecure (lit "allow_insecure") (flag true) (
    put_if (not (is_empty t.short_id)) (lit "short_id") (text t.short_id) (
      put_if (not (is_empty t.private_key)) (lit "private_key") (text t.private_key) (
        put_if (not (is_empty t.public_key)) (lit "public_key") (text t.public_key) (
          put_if (ltb_ℤ (pos 0) t.server_port) (lit "server_port") (text (itoa t.server_port))
            (put_if (not (is_empty t.server_name)) (lit "server_name") (text t.server_name) [])))))

hy2_tls_settings : TlsCfg → Map Text Plain
hy2_tls_settings t =
    put_if t.allow_insecure (lit "allow_insecure") (flag true)
      (put_if (not (is_empty t.server_name)) (lit "server_name") (text t.server_name) [])

-- `if len(ts) > 0 { out["tls_settings"] = ts }`
unfoldable pub put_tls_settings : Map Text Plain → Map Text Json → Map Text Json
put_tls_settings [] out = out
put_tls_settings (x ∷ ts) out = put (lit "tls_settings") (object (x ∷ ts)) out

unfoldable pub vless_fields : NodeEntry → ℤ → Map Text Json
unfolding vless_tls_settings put_tls_settings
vless_fields e port = put_tls_settings (vless_tls_settings e.tls) (
    put_number (lit "tls") (if e.tls.enabled then pos 2 else pos 0) (
      put_if (not (is_empty e.protocol.decryption)) (lit "decryption")
        (plain (text e.protocol.decryption))
        (put_if (not (is_empty e.protocol.flow)) (lit "flow") (plain (text e.protocol.flow)) (
          put_text (lit "network") (first_non_empty (e.protocol.network ∷ lit "tcp" ∷ [])) (
            put_number (lit "server_port") port (
              put_text (lit "listen_ip") e.server.listen
                (put_text (lit "protocol") (lit "vless") [])))))))

unfoldable pub hy2_fields : NodeEntry → ℤ → Map Text Json
unfolding hy2_tls_settings put_tls_settings
hy2_fields e port = put_tls_settings (hy2_tls_settings e.tls) (
    put_if (not (is_empty e.tls.server_name)) (lit "server_name") (plain (text e.tls.server_name)) (
      put_text (lit "listen_ip") e.server.listen (
        put_number (lit "server_port") port
          (put_number (lit "version") (pos 2) (put_text (lit "protocol") (lit "hysteria") [])))))

-- The `switch` on the type: there is no case for "both".
unfoldable pub protocol_fields : NodeEntry → ℤ → Map Text Json
protocol_fields e port =
    let t = normalize_node_type e.type in
    if t == vless then vless_fields e port else if t == hy2 then hy2_fields e port else []

-- A value that is not positive stands for the default.
abbrev pub or_default : ℤ → ℤ → ℤ
or_default d n = if leb_ℤ n (pos 0) then d else n

abbrev pub base_config : ℤ → Json
base_config n =
    object (put (lit "pull_interval") (number n) (put (lit "push_interval") (number n) []))

unfoldable pub node_config_response : NodeEntry → Map Text Json
node_config_response e =
    put (lit "base_config") (base_config (or_default default_sync_interval e.runtime.sync_interval))
      (protocol_fields e (or_default (pos 443) e.server.port))
