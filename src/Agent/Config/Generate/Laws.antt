-- ===== src/Agent/Config/Generate/Laws.antt =====
-- What `xboard-generate-config` leaves on disk when it exits without an error
-- (cmd/mini-sb-agent/xboard_config.go).
use mathlib.Core.Path.{subst}
use mini_sb_xboard_agent.Base.{
  ◌≡◌, ◌≢◌, refl, sym, ap, ◌∙◌, Bool, true, false, ◌||◌, Option, some, List, ◌++◌, arith, Result,
  ok, err, Bool-cases, Result-cases, Option-cases, inl, inr,
}
use mini_sb_xboard_agent.Base.Text.{Text, lit, text_eq, text_beq_iff, is_empty}
use mini_sb_xboard_agent.Base.Map.{lookup, put, lookup-put, lookup-put_self}
use mini_sb_xboard_agent.Agent.Config.{GenerateOptions, ConfigError, InboundConfig}
use mini_sb_xboard_agent.Agent.Config.Cert.{
  Disk, Write, written, not_opened, not_closed, cut_off, write_file,
}
use mini_sb_xboard_agent.Agent.Config.Generate.{
  Command, GenerateError, not_encoded, Saving, save_file, save_outputs, generate_config, with_mode,
  run_generate_config,
}

-- Both files are there.
abbrev pub Saved : Command → Text → Text → Disk → Type 0
Saved c mode document disk =
    (lookup c.out disk ≡ some document)
    × (is_empty c.node_type_out ≡ false → lookup c.node_type_out disk ≡ some (mode ++ lit "\n"))

both-Saved :
    (c : Command) (mode document : Text) (disk : Disk)
    → c.out ≢ c.node_type_out
    → Saved c mode document (put c.node_type_out (mode ++ lit "\n") (put c.out document disk))
both-Saved c mode document disk apart =
    let bytes = mode ++ lit "\n" in
    (
      ground (
        arith,
        lookup-put c.out c.node_type_out bytes (put c.out document disk),
        lookup-put_self c.out document disk,
        text_beq_iff c.node_type_out c.out,
      ),
      λ _. lookup-put_self c.node_type_out bytes (put c.out document disk),
    )

module _ {E : Type 0} where
  save_file_ok :
      (dir : Bool) (w : Write) (path bytes : Text) (disk : Disk)
      → (save_file {E = E} dir w path bytes disk).1 ≡ ok tt
      → (save_file {E = E} dir w path bytes disk).0 ≡ put path bytes disk
  unfolding save_file write_file
  save_file_ok false w path bytes disk h = absurd (ground arith)
  save_file_ok true written path bytes disk h = refl
  save_file_ok true not_opened path bytes disk h = absurd (ground arith)
  save_file_ok true not_closed path bytes disk h = absurd (ground arith)
  save_file_ok true (cut_off part) path bytes disk h = absurd (ground arith)

  same_mode : (m m' : Text) → Path (Result (GenerateError E) Text) (ok m) (ok m') → m' ≡ m
  same_mode m m' e = ground (arith, e)

  save_outputs_ok :
      (saving : Saving) (c : Command) (mode mode' document : Text) (disk : Disk)
      → c.out ≢ c.node_type_out
      → (save_outputs {E = E} saving c mode document disk).1 ≡ ok mode'
      → Saved c mode document (save_outputs {E = E} saving c mode document disk).0 × (mode' ≡ mode)
  unfolding save_outputs
  save_outputs_ok saving c mode mode' document disk apart h =
      let first = save_file {E = E} saving.out_directory saving.out_write c.out document disk in
      let second =
        save_file {E = E} saving.mode_directory saving.mode_write c.node_type_out (mode ++ lit "\n")
          first.0 in
      elim (Result-cases first.1) [
        | inl (e, failed) ↦ absurd (ground (arith, failed))
        | inr (_, done) ↦
            let d = save_file_ok saving.out_directory saving.out_write c.out document disk done in
            elim (Bool-cases (is_empty c.node_type_out)) [
              | inl alone ↦
                  let whole : save_outputs {E = E} saving c mode document disk
                      ≡ (first.0, ok mode) =
                    rw (save_outputs, done, alone) refl in
                  let e = ap (λ x. x.0) whole ∙ d in
                  (
                    subst (Saved c mode document) (sym e) (
                      lookup-put_self c.out document disk,
                      λ given. absurd (ground (arith, given)),
                    ),
                    same_mode mode mode' (ap (λ x. x.1) (sym whole) ∙ h),
                  )
              | inr both ↦ elim (Result-cases second.1) [
                | inl (e, failed) ↦
                    let whole : save_outputs {E = E} saving c mode document disk
                        ≡ (second.0, err e) =
                      rw (save_outputs, done, both, failed) refl in
                    absurd (ground (arith, ap (λ x. x.1) (sym whole) ∙ h))
                | inr (_, finished) ↦
                    let whole : save_outputs {E = E} saving c mode document disk
                        ≡ (second.0, ok mode) =
                      rw (save_outputs, done, both, finished) refl in
                    let e =
                      ap (λ x. x.0) whole
                      ∙ save_file_ok saving.mode_directory saving.mode_write c.node_type_out
                          (mode ++ lit "\n") first.0 finished
                      ∙ ap (put c.node_type_out (mode ++ lit "\n")) d in
                    (
                      subst (Saved c mode document) (sym e) (both-Saved c mode document disk apart),
                      same_mode mode mode' (ap (λ x. x.1) (sym whole) ∙ h),
                    )
              ]
            ]
      ]

  module _
      (generate : GenerateOptions
        → Disk
        → Disk × Result (ConfigError E) (Text × List InboundConfig))
      (encode : List InboundConfig → Option Text) (saving : Saving) where
    -- What the command has made.
    abbrev pub Generated : Command → Disk → Disk → Type 0
    Generated c disk disk' =
        (mode : Text) × (inbounds : List InboundConfig) × (document : Text) × ((generate c.options
            disk).1
          ≡ ok (mode, inbounds))
        × (encode inbounds ≡ some document)
        × Saved c mode document disk'

    generate_config_ok :
        (c : Command) (disk : Disk) (m : Text)
        → c.out ≢ c.node_type_out
        → (generate_config generate encode saving c disk).1 ≡ ok m
        → Generated c disk (generate_config generate encode saving c disk).0
    unfolding generate_config
    generate_config_ok c disk m apart h =
        let made = generate c.options disk in
        elim (Result-cases made.1) [
          | inl (e, failed) ↦ absurd (ground (arith, failed))
          | inr ((mode, inbounds), done) ↦ elim (Option-cases (encode inbounds)) [
            | inl bad ↦
                let whole : generate_config generate encode saving c disk
                    ≡ (made.0, err not_encoded) =
                  rw (generate_config, done, bad) refl in
                absurd (ground (arith, ap (λ x. x.1) (sym whole) ∙ h))
            | inr (document, good) ↦
                let whole : generate_config generate encode saving c disk
                    ≡ save_outputs saving c mode document made.0 =
                  rw (generate_config, done, good) refl in
                let (saved, _) =
                  save_outputs_ok saving c mode m document made.0 apart
                    (ap (λ x. x.1) (sym whole) ∙ h) in
                (
                  mode,
                  inbounds,
                  document,
                  done,
                  good,
                  subst (Saved c mode document) (sym (ap (λ x. x.0) whole)) saved,
                )
          ]
        ]

    -- If the command `xboard-generate-config` exits with 0, and its two output paths differ: with the
    -- defaults of the mode filled in, the inbounds were made and encoded without an error, and the two
    -- files hold the encoded document and, where a path is given for it, the mode with a newline.
    pub run_generate_config_saves :
        (c : Command) (disk : Disk)
        → c.out ≢ c.node_type_out
        → (run_generate_config generate encode saving (some c) disk).1 ≡ 0
        → Generated
            (record c { options = with_mode c.options })
            disk
            (run_generate_config generate encode saving (some c) disk).0
    unfolding run_generate_config
    run_generate_config_saves c disk apart h =
        let c' = record c { options = with_mode c.options } in
        elim (Bool-cases (is_empty c.panel_url || is_empty c.panel_token || is_empty c.out)) [
          | inl missing ↦
              let whole : run_generate_config generate encode saving (some c) disk ≡ (disk, 2) =
                rw (run_generate_config, missing) refl in
              absurd (ground (arith, ap (λ x. x.1) (sym whole) ∙ h))
          | inr full ↦ elim (Result-cases (generate_config generate encode saving c' disk).1) [
            | inl (e, failed) ↦
                let whole : (run_generate_config generate encode saving (some c) disk).1 ≡ 1 =
                  rw (run_generate_config, full, failed) refl in
                absurd (ground (arith, sym whole ∙ h))
            | inr (m, done) ↦
                let whole : (run_generate_config generate encode saving (some c) disk).0
                    ≡ (generate_config generate encode saving c' disk).0 =
                  rw (run_generate_config, full) refl in
                subst (Generated c' disk) (sym whole) (generate_config_ok c' disk m apart done)
          ]
        ]
