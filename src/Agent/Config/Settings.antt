-- ===== src/Agent/Config/Settings.antt =====
-- The TLS settings of a VLESS node that tiny-xboard sends (tiny-xboard/api.go), as the agent reads
-- them (panelapi/node_config.go).
use mini_sb_xboard_agent.Base.{
  ◌≡◌, refl, ap, ◌∙◌, Bool, true, false, not, none, some, [], ◌∷◌, if◌then◌else◌,
}
use mini_sb_xboard_agent.Base.Int.{pos, ltb_ℤ, int_eq}
use mini_sb_xboard_agent.Base.Text.{Text, lit, text_eq, text_beq, is_empty, itoa}
use mini_sb_xboard_agent.Base.Map.{Map, lookup}
use mini_sb_xboard_agent.TinyXboard.Schema.{TlsCfg}
use mini_sb_xboard_agent.TinyXboard.Api.Config.{text, put_if, vless_tls_settings}
use mini_sb_xboard_agent.TinyXboard.Api.Config.Laws.{other_key_if, same_key}
use mini_sb_xboard_agent.PanelApi.NodeConfig.{text_of, string_int, string_int_of}

-- A setting that may be left out, under its key.
own_key_if :
    {V : Type 0}
    → (c : Bool) (k : Text) (v : V) (m : Map Text V) → lookup k m ≡ none
    → lookup k (put_if c k v m) ≡ (if c then some v else none)
unfolding put_if
own_key_if true k v m absent = same_key k v m
own_key_if false k v m absent = absent

text_if : (t : Text) → text_of (if not (is_empty t) then some (text t) else none) ≡ t
text_if [] = refl
text_if (c ∷ t) = refl

string_int_if :
    (c : Bool) (t : Text)
    → string_int_of (if c then some (text t) else none) ≡ (if c then t else [])
unfolding string_int
string_int_if true t = refl
string_int_if false t = refl

module _ (t : TlsCfg) where
  pub tls-server_name : text_of (lookup (lit "server_name") (vless_tls_settings t)) ≡ t.server_name
  unfolding vless_tls_settings text_beq lookup
  tls-server_name =
      ap text_of (
        other_key_if _ (lit "server_name") (lit "allow_insecure") _ _ refl
        ∙ other_key_if _ (lit "server_name") (lit "short_id") _ _ refl
        ∙ other_key_if _ (lit "server_name") (lit "private_key") _ _ refl
        ∙ other_key_if _ (lit "server_name") (lit "public_key") _ _ refl
        ∙ other_key_if _ (lit "server_name") (lit "server_port") _ _ refl
        ∙ own_key_if _ (lit "server_name") (text t.server_name) [] refl)
      ∙ text_if t.server_name

  pub tls-server_port :
      string_int_of (lookup (lit "server_port") (vless_tls_settings t))
      ≡ (if ltb_ℤ (pos 0) t.server_port then itoa t.server_port else [])
  unfolding vless_tls_settings text_beq lookup
  tls-server_port =
      ap string_int_of (
        other_key_if _ (lit "server_port") (lit "allow_insecure") _ _ refl
        ∙ other_key_if _ (lit "server_port") (lit "short_id") _ _ refl
        ∙ other_key_if _ (lit "server_port") (lit "private_key") _ _ refl
        ∙ other_key_if _ (lit "server_port") (lit "public_key") _ _ refl
        ∙ own_key_if _ (lit "server_port") (text (itoa t.server_port)) _
            (other_key_if _ (lit "server_port") (lit "server_name") _ [] refl))
      ∙ string_int_if (ltb_ℤ (pos 0) t.server_port) (itoa t.server_port)

  pub tls-private_key : text_of (lookup (lit "private_key") (vless_tls_settings t)) ≡ t.private_key
  unfolding vless_tls_settings text_beq lookup
  tls-private_key =
      ap text_of (
        other_key_if _ (lit "private_key") (lit "allow_insecure") _ _ refl
        ∙ other_key_if _ (lit "private_key") (lit "short_id") _ _ refl
        ∙ own_key_if _ (lit "private_key") (text t.private_key) _ (
            other_key_if _ (lit "private_key") (lit "public_key") _ _ refl
            ∙ other_key_if _ (lit "private_key") (lit "server_port") _ _ refl
            ∙ other_key_if _ (lit "private_key") (lit "server_name") _ [] refl))
      ∙ text_if t.private_key

  pub tls-short_id : text_of (lookup (lit "short_id") (vless_tls_settings t)) ≡ t.short_id
  unfolding vless_tls_settings text_beq lookup
  tls-short_id =
      ap text_of (
        other_key_if _ (lit "short_id") (lit "allow_insecure") _ _ refl
        ∙ own_key_if _ (lit "short_id") (text t.short_id) _ (
            other_key_if _ (lit "short_id") (lit "private_key") _ _ refl
            ∙ other_key_if _ (lit "short_id") (lit "public_key") _ _ refl
            ∙ other_key_if _ (lit "short_id") (lit "server_port") _ _ refl
            ∙ other_key_if _ (lit "short_id") (lit "server_name") _ [] refl))
      ∙ text_if t.short_id
