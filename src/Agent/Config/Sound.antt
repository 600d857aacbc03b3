-- ===== src/Agent/Config/Sound.antt =====
-- What `generateXboardConfig` may put into a configuration (cmd/mini-sb-agent/xboard_config.go).
use mathlib.Core.Path.{subst}
use mini_sb_xboard_agent.Base.{
  ◌≡◌, refl, true, false, not, ◌&&◌, ◌||◌, List, [], ◌∷◌, ◌==◌, arith, All, length, if◌then◌else◌,
  Result, ok, err, Bool-cases, Result-cases, inl, inr,
}
use mini_sb_xboard_agent.Base.Int.{pos, leb_ℤ, int_eq, ◌≤ℤ◌}
use mini_sb_xboard_agent.Base.Text.{Text, lit, text_eq, text_beq_iff, is_empty, to_lower}
use mini_sb_xboard_agent.PanelApi.NodeConfig.{NodeConfig}
use mini_sb_xboard_agent.TinyXboard.Api.Config.{first_non_empty}
use mini_sb_xboard_agent.Agent.Config.{
  InboundConfig, vless_in, hy2_in, ConfigError, GenerateOptions, is_one_of, single, default_listen,
  vless_inbound, hy2_inbound, inbound_from_node_config, fetched_inbound, generate_both, mode_of,
  generate_inbounds,
}

-- A property of a result without an error.
abbrev pub OnOk : {E A : Type 0} → (A → Type 0) → Result E A → Type 0
OnOk P (err e) = Unit
OnOk P (ok x) = P x

module _ {E : Type 0} (beside : Text → Text)
    (ensure_cert : Text → Text → Text → Result E (Unit {0})) where
  -- An inbound with a port, and with its key or its certificate.
  abbrev pub IsUsable : InboundConfig → Type 0
  IsUsable (vless_in c) = (pos 1 ≤ℤ c.listen_port) × (is_empty c.private_key ≡ false)
  IsUsable (hy2_in c) =
      (pos 1 ≤ℤ c.listen_port) × (ensure_cert c.certificate_path c.key_path c.server_name ≡ ok tt)

  vless_inbound-IsUsable :
      (cfg : NodeConfig) (listen : Text) → OnOk IsUsable (vless_inbound {E = E} cfg listen)
  unfolding vless_inbound
  vless_inbound-IsUsable cfg listen = elim (Bool-cases (leb_ℤ cfg.server_port (pos 0))) [
    | inl low ↦ rw (vless_inbound, low) tt
    | inr port ↦ elim (Bool-cases (is_empty cfg.tls_settings.private_key)) [
      | inl missing ↦ rw (vless_inbound, port, missing) tt
      | inr key ↦ rw (vless_inbound, port, key) (ground arith, key)
    ]
  ]

  hy2_inbound-IsUsable :
      (cfg : NodeConfig) (opts : GenerateOptions) (listen : Text)
      → OnOk IsUsable (hy2_inbound beside ensure_cert cfg opts listen)
  unfolding hy2_inbound
  hy2_inbound-IsUsable cfg opts listen =
      let cert_path = if is_empty opts.cert_path then beside (lit "cert.pem") else opts.cert_path in
      let key_path = if is_empty opts.key_path then beside (lit "key.pem") else opts.key_path in
      let name =
        first_non_empty (cfg.server_name ∷ cfg.tls_settings.server_name ∷ lit "bing.com" ∷ []) in
      elim (Bool-cases (leb_ℤ cfg.server_port (pos 0))) [
        | inl low ↦ rw (hy2_inbound, low) tt
        | inr port ↦ elim (Result-cases (ensure_cert cert_path key_path name)) [
          | inl (e, failed) ↦ rw (hy2_inbound, port, failed) tt
          | inr (_, there) ↦ rw (hy2_inbound, port, there) (ground arith, there)
        ]
      ]

  inbound-IsUsable :
      (cfg : NodeConfig) (opts : GenerateOptions) (listen : Text)
      → OnOk IsUsable (inbound_from_node_config beside ensure_cert cfg opts listen)
  unfolding inbound_from_node_config
  inbound-IsUsable cfg opts listen = elim (Bool-cases (to_lower cfg.protocol == lit "vless")) [
    | inl is_vless ↦ rw (inbound_from_node_config, is_vless) (vless_inbound-IsUsable cfg listen)
    | inr not_vless ↦
        elim (Bool-cases
          (to_lower cfg.protocol == lit "hysteria" || to_lower cfg.protocol == lit "hysteria2")) [
            | inl is_hy2 ↦
                elim (Bool-cases (not (cfg.version == pos 0) && not (cfg.version == pos 2))) [
                  | inl other ↦ rw (inbound_from_node_config, not_vless, is_hy2, other) tt
                  | inr two ↦
                      rw (inbound_from_node_config, not_vless, is_hy2, two)
                        (hy2_inbound-IsUsable cfg opts listen)
                ]
            | inr unknown ↦ rw (inbound_from_node_config, not_vless, unknown) tt
          ]
  ]

  fetched-IsUsable :
      (r : Result E NodeConfig) (opts : GenerateOptions)
      → OnOk IsUsable (fetched_inbound beside ensure_cert r opts)
  unfolding fetched_inbound
  fetched-IsUsable (err e) opts = tt
  fetched-IsUsable (ok cfg) opts = inbound-IsUsable cfg opts (default_listen cfg.listen_ip)

  -- A mode and its inbounds.
  abbrev pub IsGenerated : Text × List InboundConfig → Type 0
  IsGenerated (mode, ins) =
      (is_one_of mode (lit "vless" ∷ lit "hy2" ∷ lit "both" ∷ []) ≡ true)
      × (length ins ≡ (if mode == lit "both" then 2 else 1))
      × All IsUsable ins

  single-IsGenerated :
      (mode : Text) (r : Result (ConfigError E) InboundConfig)
      → is_one_of mode (lit "vless" ∷ lit "hy2" ∷ lit "both" ∷ []) ≡ true
      → (mode == lit "both") ≡ false
      → OnOk IsUsable r
      → OnOk IsGenerated (single mode r)
  single-IsGenerated mode (err e) known one usable = tt
  single-IsGenerated mode (ok x) known one usable = (known, rw one refl, (usable, tt))

  both-IsGenerated :
      (mode : Text) (r r' : Result E NodeConfig) (opts : GenerateOptions)
      → is_one_of mode (lit "vless" ∷ lit "hy2" ∷ lit "both" ∷ []) ≡ true
      → (mode == lit "both") ≡ true
      → OnOk IsGenerated (generate_both beside ensure_cert mode r r' opts)
  unfolding generate_both
  both-IsGenerated mode (err e) r' opts known two = tt
  both-IsGenerated mode (ok v) (err e) opts known two = tt
  both-IsGenerated mode (ok v) (ok h) opts known two =
      let first = inbound-IsUsable v opts (default_listen v.listen_ip) in
      let second = inbound-IsUsable h opts (default_listen h.listen_ip) in
      elim (Result-cases
        (inbound_from_node_config beside ensure_cert v opts (default_listen v.listen_ip))) [
          | inl (e, failed) ↦ rw (generate_both, failed) tt
          | inr (x, made) ↦
              elim (Result-cases
                (inbound_from_node_config beside ensure_cert h opts (default_listen h.listen_ip))) [
                  | inl (e, failed) ↦ rw (generate_both, made, failed) tt
                  | inr (y, made') ↦
                      rw (generate_both, made, made')
                        (
                          known,
                          rw two refl,
                          (
                            subst (OnOk IsUsable) made first,
                            (subst (OnOk IsUsable) made' second, tt),
                          ),
                        )
                ]
        ]

  -- A configuration that is generated without an error is for one of the three modes, has two inbounds
  -- for "both" and one for the others, and each inbound listens on a positive port, with a private key
  -- or with a certificate that is in place, whatever the panel answered.
  pub generate_inbounds-IsGenerated :
      (fetch : Text → Text → Result E NodeConfig) (opts : GenerateOptions)
      → OnOk IsGenerated (generate_inbounds beside ensure_cert fetch opts)
  unfolding generate_inbounds
  generate_inbounds-IsGenerated fetch opts =
      let mode = mode_of opts in
      let vless_id = first_non_empty (opts.vless_node_id ∷ opts.panel_node_id ∷ []) in
      let hy2_id = first_non_empty (opts.hy2_node_id ∷ opts.panel_node_id ∷ []) in
      elim (Bool-cases (mode == lit "vless")) [
        | inl v ↦ elim (Bool-cases (is_empty vless_id)) [
          | inl none_given ↦ rw (generate_inbounds, v, none_given) tt
          | inr given ↦
              rw (generate_inbounds, v, given)
                (single-IsGenerated mode _ (ground arith)
                  (ground (arith, text_beq_iff mode (lit "vless"), text_beq_iff mode (lit "both")))
                  (fetched-IsUsable (fetch vless_id (lit "vless")) opts))
        ]
        | inr not_vless ↦ elim (Bool-cases (mode == lit "hy2")) [
          | inl h ↦ elim (Bool-cases (is_empty hy2_id)) [
            | inl none_given ↦ rw (generate_inbounds, not_vless, h, none_given) tt
            | inr given ↦
                rw (generate_inbounds, not_vless, h, given)
                  (single-IsGenerated mode _ (ground arith)
                    (ground (arith, text_beq_iff mode (lit "hy2"), text_beq_iff mode (lit "both")))
                    (fetched-IsUsable (fetch hy2_id (lit "hysteria")) opts))
          ]
          | inr not_hy2 ↦ elim (Bool-cases (mode == lit "both")) [
            | inl b ↦ elim (Bool-cases (is_empty vless_id || is_empty opts.hy2_node_id)) [
              | inl none_given ↦ rw (generate_inbounds, not_vless, not_hy2, b, none_given) tt
              | inr given ↦
                  rw (generate_inbounds, not_vless, not_hy2, b, given)
                    (both-IsGenerated mode (fetch vless_id (lit "vless"))
                      (fetch opts.hy2_node_id (lit "hysteria")) opts (ground arith) b)
            ]
            | inr unknown ↦ rw (generate_inbounds, not_vless, not_hy2, unknown) tt
          ]
        ]
      ]
