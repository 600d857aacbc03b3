-- ===== src/TinyXboard/Persist/Load.antt =====
-- Loading a document that was saved (tiny-xboard/persist.go).
use mini_sb_xboard_agent.Base.{◌≡◌, ◌≤◌, true, false, arith, length, ok}
use mini_sb_xboard_agent.TinyXboard.Persist.{
  Bytes, File, holds, Files, Codec, load_file, load_with_fallback, trim_bom, max_state_file_size,
}

-- The bytes decode to the value: within the size limit, after a possible byte order mark.
pub record Decodes {A : Type 0} (codec : Codec A) (zero a : A) (b : Bytes) : Type 0 where
  pub small : length b ≤ max_state_file_size
  pub decoded : codec.decode (trim_bom b) zero ≡ (a, true)

module _ {A : Type 0} (codec : Codec A) {zero a : A} where
  pub load_file_lem :
      (b : Bytes) → Decodes codec zero a b → load_file codec (holds b) zero ≡ (a, ok tt)
  unfolding load_file
  load_file_lem b d = ground arith

  pub load_main :
      (fs : Files) (b : Bytes)
      → fs.main ≡ holds b
      → Decodes codec zero a b
      → load_with_fallback codec fs zero ≡ (a, ok false)
  unfolding load_with_fallback
  load_main fs b e d = ground (arith, load_file_lem b d)

  -- With the main file gone, the backup is what counts.
  pub load_bak :
      (fs : Files) (b : Bytes)
      → fs.main ≡ File.absent
      → fs.bak ≡ holds b
      → Decodes codec zero a b
      → load_with_fallback codec fs zero ≡ (a, ok true)
  unfolding load_with_fallback load_file
  load_bak fs b m e d = ground (arith, load_file_lem b d)
