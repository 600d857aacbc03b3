-- ===== src/Agent/Config/Cert/Laws.antt =====
-- Which certificate and key are on disk afterwards (cmd/mini-sb-agent/xboard_config.go).
use mathlib.Core.Path.{subst}
use mini_sb_xboard_agent.Base.{
  ◌≡◌, ◌≢◌, refl, sym, ap, ◌∙◌, true, false, ◌&&◌, ◌||◌, none, some, arith, ok, err, Bool-cases,
  Result-cases, Option-cases, inl, inr,
}
use mini_sb_xboard_agent.Base.Text.{Text, text_eq, text_beq_iff, is_empty}
use mini_sb_xboard_agent.Base.Map.{
  lookup, contains, contains-lookup, put, lookup-put, lookup-put_self,
}
use mini_sb_xboard_agent.Agent.Config.Cert.{
  Disk, Write, written, not_opened, not_closed, cut_off, not_written, write_file, Making,
  write_pair, ensure_self_signed_cert,
}

module _ (Matches : Text → Text → Type 0) (cert_path key_path : Text) where
  -- The certificate on disk belongs to the key on disk, if both are there.
  abbrev pub IsMatched : Disk → Type 0
  IsMatched disk =
      (cert key : Text)
      → lookup cert_path disk ≡ some cert
      → lookup key_path disk ≡ some key
      → Matches cert key

  -- Both are there, and they belong together.
  abbrev pub HasCert : Disk → Type 0
  HasCert disk =
      (cert : Text) × (key : Text) × (lookup cert_path disk ≡ some cert)
      × (lookup key_path disk ≡ some key)
      × Matches cert key

module _ (Matches : Text → Text → Type 0) {E : Type 0} (making : Making E)
    (cert_path key_path : Text) (apart : cert_path ≢ key_path)
    (generated : (name cert key : Text)
      → making.pair name ≡ ok (cert, key)
      → Matches cert key) where
  file_written :
      (w : Write) (path bytes : Text) (disk : Disk)
      → (write_file {E = E} w path bytes disk).1 ≡ ok tt
      → (write_file {E = E} w path bytes disk).0 ≡ put path bytes disk
  unfolding write_file
  file_written written path bytes disk h = refl
  file_written not_opened path bytes disk h = absurd (ground arith)
  file_written not_closed path bytes disk h = absurd (ground arith)
  file_written (cut_off part) path bytes disk h = absurd (ground arith)

  pair_written :
      (cert key : Text) (disk : Disk)
      → (write_pair making cert_path key_path (cert, key) disk).1 ≡ ok tt
      → (write_pair making cert_path key_path (cert, key) disk).0
        ≡ put key_path key (put cert_path cert disk)
  unfolding write_pair
  pair_written cert key disk h =
      let first = write_file {E = E} making.cert_write cert_path cert disk in
      elim (Result-cases first.1) [
        | inl (e, failed) ↦ absurd (ground (arith, failed))
        | inr (_, done) ↦
            let same = file_written making.cert_write cert_path cert disk done in
            let second : (write_file {E = E} making.key_write key_path key first.0).1 ≡ ok tt =
              ground (arith, done) in
            rw (write_pair, done)
              (file_written making.key_write key_path key first.0 second
                ∙ ap (put key_path key) same)
      ]

  both_there :
      (disk : Disk)
      → IsMatched Matches cert_path key_path disk
      → (contains cert_path disk && contains key_path disk) ≡ true
      → HasCert Matches cert_path key_path disk
  both_there disk matched there = elim (Option-cases (lookup cert_path disk)) [
    | inl no_cert ↦ absurd (ground (arith, contains-lookup cert_path disk))
    | inr (cert, c) ↦ elim (Option-cases (lookup key_path disk)) [
      | inl no_key ↦ absurd (ground (arith, contains-lookup key_path disk))
      | inr (key, k) ↦ (cert, key, c, k, matched cert key c k)
    ]
  ]

  renewed :
      (cert key : Text) (disk : Disk)
      → Matches cert key
      → HasCert Matches cert_path key_path (put key_path key (put cert_path cert disk))
  renewed cert key disk m = (
    cert,
    key,
    ground (
      arith,
      lookup-put cert_path key_path key (put cert_path cert disk),
      lookup-put_self cert_path cert disk,
      text_beq_iff key_path cert_path,
    ),
    lookup-put_self key_path key (put cert_path cert disk),
    m,
  )

  -- Whatever happens to the writes: if the certificate and the key that are on disk
  -- belong together, or one of them is missing, then after a call without an error both are there and
  -- belong together, where the paths differ and what is generated belongs together.
  pub ensure-HasCert :
      (name : Text) (disk : Disk)
      → IsMatched Matches cert_path key_path disk
      → (ensure_self_signed_cert making cert_path key_path name disk).1 ≡ ok tt
      → HasCert Matches cert_path key_path
          (ensure_self_signed_cert making cert_path key_path name disk).0
  unfolding ensure_self_signed_cert
  ensure-HasCert name disk matched h = elim (Bool-cases (is_empty cert_path || is_empty key_path)) [
    | inl bad ↦ absurd (ground (arith, bad))
    | inr paths ↦ elim (Bool-cases (contains cert_path disk && contains key_path disk)) [
      | inl there ↦
          let same : (ensure_self_signed_cert making cert_path key_path name disk).0 ≡ disk =
            rw (ensure_self_signed_cert, paths, there) refl in
          subst (HasCert Matches cert_path key_path) (sym same) (both_there disk matched there)
      | inr missing ↦ elim (Result-cases (making.pair name)) [
        | inl (e, failed) ↦ absurd (ground (arith, failed))
        | inr ((cert, key), made) ↦ elim (Bool-cases making.directories) [
          | inr none_made ↦ absurd (ground (arith, none_made))
          | inl dirs ↦
              let done : ensure_self_signed_cert making cert_path key_path name disk
                  ≡ write_pair making cert_path key_path (cert, key) disk =
                rw (ensure_self_signed_cert, paths, missing, dirs, made) refl in
              let new = pair_written cert key disk (ap (λ x. x.1) (sym done) ∙ h) in
              subst (HasCert Matches cert_path key_path) (sym (ap (λ x. x.0) done ∙ new))
                (renewed cert key disk (generated name cert key made))
        ]
      ]
    ]
  ]

pair_cut :
    {E : Type 0} (making : Making E) (cert_path key_path cert key : Text) (disk : Disk)
    → making.cert_write ≡ written
    → making.key_write ≡ not_opened
    → write_pair making cert_path key_path (cert, key) disk
      ≡ (put cert_path cert disk, err not_written)
unfolding write_pair write_file
pair_cut making cert_path key_path cert key disk cw kw = ground (arith, cw, kw)

-- A key that is there alone stays when the new key cannot be written: with paths that differ and are
-- not empty, a call that finds a key without a certificate, writes a new certificate and cannot open
-- the key's file reports the error; the disk then has the new certificate beside the old key, and every
-- later call takes the two for a pair and reports no error.
pub ensure_mismatch :
    {E : Type 0} (making : Making E) (later : Making E) (cert_path key_path name again : Text)
    (cert key old : Text) (disk : Disk)
    → cert_path ≢ key_path
    → (is_empty cert_path || is_empty key_path) ≡ false
    → lookup cert_path disk ≡ none
    → lookup key_path disk ≡ some old
    → making.directories ≡ true
    → making.pair name ≡ ok (cert, key)
    → making.cert_write ≡ written
    → making.key_write ≡ not_opened
    → let after = ensure_self_signed_cert making cert_path key_path name disk in
      (after.1 ≡ err not_written)
      × (lookup cert_path after.0 ≡ some cert)
      × (lookup key_path after.0 ≡ some old)
      × (ensure_self_signed_cert later cert_path key_path again after.0 ≡ (after.0, ok tt))
unfolding ensure_self_signed_cert
ensure_mismatch making later cert_path key_path name again cert key old disk apart paths c k dirs
      made cw kw =
    let missing : (contains cert_path disk && contains key_path disk) ≡ false =
      ground (arith, contains-lookup cert_path disk) in
    let done : ensure_self_signed_cert making cert_path key_path name disk
        ≡ (put cert_path cert disk, err not_written) =
      rw (ensure_self_signed_cert, paths, missing, dirs, made)
        (pair_cut making cert_path key_path cert key disk cw kw) in
    let d = put cert_path cert disk in
    let has_cert : lookup cert_path d ≡ some cert = lookup-put_self cert_path cert disk in
    let has_key : lookup key_path d ≡ some old =
      ground (arith, lookup-put key_path cert_path cert disk, text_beq_iff cert_path key_path) in
    let there : (contains cert_path d && contains key_path d) ≡ true =
      ground (arith, contains-lookup cert_path d, contains-lookup key_path d) in
    let kept : ensure_self_signed_cert later cert_path key_path again d ≡ (d, ok tt) =
      rw (ensure_self_signed_cert, paths, there) refl in
    (
      ap (λ x. x.1) done,
      ap (λ x. lookup cert_path x.0) done ∙ has_cert,
      ap (λ x. lookup key_path x.0) done ∙ has_key,
      ap (λ x. ensure_self_signed_cert later cert_path key_path again x.0) done
          ∙ kept
          ∙ ap (λ x. (x, ok tt)) (sym (ap (λ x. x.0) done)),
    )
