-- ===== src/TinyXboard/Persist/Crash.antt =====
-- A crash or power loss between the system calls of `AtomicWriteWithBackup`
-- (tiny-xboard/persist.go).
use mini_sb_xboard_agent.Base.{ℕ, zero, suc, ◌≡◌, ◌⊎◌, inl, inr, Bool, true, false, arith, take, ok}
use mini_sb_xboard_agent.TinyXboard.Persist.{
  Bytes, absent, holds, Files, Codec, create_tmp, write_bytes, keep_backup, promote_tmp,
  load_with_fallback,
}
use mini_sb_xboard_agent.TinyXboard.Persist.Load.{Decodes, load_main, load_bak}

-- The files that a crash leaves, by how many steps of the write it let through: nothing, the empty
-- temporary file, a part of the bytes, all of them, the backup rename, and the promotion.
unfoldable pub interrupted : ℕ → ℕ → Bytes → Files → Files
unfolding create_tmp write_bytes keep_backup promote_tmp
interrupted zero part b fs = fs
interrupted (suc zero) part b fs = create_tmp fs
interrupted (suc (suc zero)) part b fs = write_bytes (take part b) (create_tmp fs)
interrupted (suc (suc (suc zero))) part b fs = write_bytes b (create_tmp fs)
interrupted (suc (suc (suc (suc zero)))) part b fs = keep_backup (write_bytes b (create_tmp fs))
interrupted _ part b fs = promote_tmp (keep_backup (write_bytes b (create_tmp fs)))

module _ {A : Type 0} (codec : Codec A) {zero_value old new : A} (fs : Files) (b_old b_new : Bytes)
    (main_old : fs.main ≡ holds b_old) (old_decodes : Decodes codec zero_value old b_old)
    (new_decodes : Decodes codec zero_value new b_new) where
  -- Wherever a crash interrupts the replacement of a main file that decodes to the old document by
  -- bytes that decode to the new one, `loadWithFallback` succeeds and yields the old document or the
  -- new one.
  pub crash_recovers :
      (steps part : ℕ)
      → (used_bak : Bool) × ((load_with_fallback codec (interrupted steps part b_new fs) zero_value
            ≡ (old, ok used_bak))
          ⊎ (load_with_fallback codec (interrupted steps part b_new fs) zero_value
              ≡ (new, ok used_bak)))
  unfolding interrupted
  crash_recovers zero part = (false, inl (load_main codec fs b_old main_old old_decodes))
  crash_recovers (suc zero) part = (false, inl (load_main codec _ b_old main_old old_decodes))
  crash_recovers (suc (suc zero)) part = (false, inl (load_main codec _ b_old main_old old_decodes))
  crash_recovers (suc (suc (suc zero))) part =
      (false, inl (load_main codec _ b_old main_old old_decodes))
  crash_recovers (suc (suc (suc (suc zero)))) part =
      (true, inl (load_bak codec _ b_old (ground arith) (ground arith) old_decodes))
  crash_recovers _ part = (false, inr (load_main codec _ b_new (ground arith) new_decodes))

  -- After the backup rename and before the promotion, the replacement of a main file leaves no main
  -- file at all, and the old one as the backup.
  pub crash_window :
      (part : ℕ)
      → ((interrupted 4 part b_new fs).main ≡ absent)
        × ((interrupted 4 part b_new fs).bak ≡ holds b_old)
  unfolding interrupted
  crash_window part = (ground arith, ground arith)
