-- ===== src/Agent/Config/Cert.antt =====
-- `ensureSelfSignedCert` (cmd/mini-sb-agent/xboard_config.go), on the files of a disk. The key pair and
-- its certificate come from outside.
pub mod Laws
use mini_sb_xboard_agent.Base.{
  Bool, true, false, ◌&&◌, ◌||◌, Option, none, some, if◌then◌else◌, Result, ok, err,
}
use mini_sb_xboard_agent.Base.Text.{Text, text_eq, is_empty}
use mini_sb_xboard_agent.Base.Map.{Map, contains, put}

-- The contents of the files, by path.
abbrev pub Disk : Type 0
Disk = Map Text Text

-- How the writing of a file goes: it works, the file does not open, the write stops after some bytes,
-- or the closing fails.
pub data Write : Type 0 where
  written not_opened not_closed : Write
  cut_off : Text → Write

pub data CertError (E : Type 0) : Type 0 where
  empty_path no_directory not_written : CertError E
  no_pair : E → CertError E

-- `os.OpenFile` with `O_TRUNC`, `pem.Encode` and `Close`.
unfoldable pub write_file :
    {E : Type 0} → Write → Text → Text → Disk → Disk × Result (CertError E) (Unit {0})
write_file written path bytes disk = (put path bytes disk, ok tt)
write_file not_opened path bytes disk = (disk, err not_written)
write_file not_closed path bytes disk = (put path bytes disk, err not_written)
write_file (cut_off part) path bytes disk = (put path part disk, err not_written)

-- What one call meets: whether the directories can be made, what the generation of a certificate for a
-- name and of its key ends with, and how the two writes go.
pub record Making (E : Type 0) : Type 0 where
  pub directories : Bool
  pub pair : Text → Result E (Text × Text)
  pub cert_write : Write
  pub key_write : Write

module _ {E : Type 0} (making : Making E) (cert_path key_path : Text) where
  -- The certificate, and then the key.
  unfoldable pub write_pair : Text × Text → Disk → Disk × Result (CertError E) (Unit {0})
  unfolding write_file
  write_pair (cert, key) disk =
      let (disk', r) = write_file making.cert_write cert_path cert disk in
      elim r [ err e ↦ (disk', err e) | ok _ ↦ write_file making.key_write key_path key disk' ]

  unfoldable pub ensure_self_signed_cert : Text → Disk → Disk × Result (CertError E) (Unit {0})
  unfolding write_pair
  ensure_self_signed_cert name disk =
      if is_empty cert_path || is_empty key_path
      then (disk, err empty_path)
      else if contains cert_path disk && contains key_path disk
      then (disk, ok tt)
      else if making.directories
      then elim (making.pair name) [
        | err e ↦ (disk, err (no_pair e))
        | ok pair ↦ write_pair pair disk
      ]
      else (disk, err no_directory)
