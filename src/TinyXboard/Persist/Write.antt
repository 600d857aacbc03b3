-- ===== src/TinyXboard/Persist/Write.antt =====
-- `AtomicWriteWithBackup` (tiny-xboard/persist.go), on every branch.
use mini_sb_xboard_agent.Base.{
  ◌≡◌, ◌≢◌, refl, if◌then◌else◌, inl, inr, true, false, arith, Bool-cases, ok, err,
}
use mini_sb_xboard_agent.TinyXboard.Persist.{
  absent, holds, Bytes, Files, Faults, no_faults, WriteError, sync_dir, exists,
  atomic_write_with_backup,
}

module _ (f : Faults) (b : Bytes) (fs : Files) where
  -- A write that succeeds leaves the new bytes under the main path, no temporary file, and the
  -- previous main file, if `Stat` found one, as the backup.
  pub write_succeeds :
      f.stat_fails ≡ false
      → (atomic_write_with_backup f b fs).1 ≡ ok tt
      → (atomic_write_with_backup f b fs).0 ≡ record {
        main = holds b;
        bak = (if exists fs.main then fs.main else fs.bak);
        tmp = absent;
      }
  unfolding atomic_write_with_backup
  write_succeeds s h = ground arith

  -- If a write reports a failure before the directory flush, while a main file was there and `Stat`
  -- and the restoring rename worked, the main file is the one from before. A failed directory flush
  -- is reported although the new bytes are in place.
  pub write_fails :
      {e : WriteError}
      → f.stat_fails ≡ false
      → f.restore_fails ≡ false
      → exists fs.main ≡ true
      → (atomic_write_with_backup f b fs).1 ≡ err e
      → (e ≢ sync_dir → (atomic_write_with_backup f b fs).0.main ≡ fs.main)
        × (e ≡ sync_dir → (atomic_write_with_backup f b fs).0.main ≡ holds b)
  unfolding atomic_write_with_backup
  write_fails s r x h = (λ n. ground arith, λ n. ground arith)

  -- With no fault the new bytes are in place.
  pub write_in_place :
      f ≡ no_faults
      → ((atomic_write_with_backup f b fs).1 ≡ ok tt)
        × ((atomic_write_with_backup f b fs).0.main ≡ holds b)
  unfolding atomic_write_with_backup
  write_in_place n = rw n (elim (Bool-cases (exists fs.main)) [
    | inl there ↦ rw there (refl, refl)
    | inr missing ↦ rw missing (refl, refl)
  ])

  pub exists_holds : fs.main ≡ holds b → exists fs.main ≡ true
  unfolding exists
  exists_holds e = rw e
