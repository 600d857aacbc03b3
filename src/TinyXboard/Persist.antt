-- ===== src/TinyXboard/Persist.antt =====
-- tiny-xboard/persist.go: one state document on disk with its backup and its temporary file, the
-- atomic replacement, and the loading that falls back to the backup. The JSON codec is a parameter.
pub mod Write
pub mod Crash
pub mod Load
use mini_sb_xboard_agent.Base.{
  ℕ, zero, suc, ◌+◌, ◌*◌, Bool, true, false, List, [], ◌∷◌, ltb, take, length, if◌then◌else◌,
  Result, ok, err, ◌&&◌, nat_beq,
}

abbrev pub Bytes : Type 0
Bytes = List ℕ

-- What a path leads to. `unreadable` is a file whose opening or reading fails.
pub data File : Type 0 where
  absent unreadable : File
  holds : Bytes → File

-- `os.Stat` finds the path.
unfoldable pub exists : File → Bool
exists absent = false
exists unreadable = true
exists (holds b) = true

-- The three paths of a document: `path`, `path.bak`, `path.tmp`.
pub record Files : Type 0 where
  pub main : File
  pub bak : File
  pub tmp : File

-- Which system calls of one write fail. `written` is how many bytes a failing write left behind.
pub record Faults : Type 0 where
  pub open_fails : Bool
  pub write_fails : Bool
  pub written : ℕ
  pub sync_fails : Bool
  pub close_fails : Bool
  pub stat_fails : Bool
  pub backup_fails : Bool
  pub promote_fails : Bool
  pub restore_fails : Bool
  pub remove_fails : Bool
  pub sync_dir_fails : Bool

-- No system call fails.
abbrev pub no_faults : Faults
no_faults = record {
  open_fails = false;
  write_fails = false;
  written = 0;
  sync_fails = false;
  close_fails = false;
  stat_fails = false;
  backup_fails = false;
  promote_fails = false;
  restore_fails = false;
  remove_fails = false;
  sync_dir_fails = false;
}

pub data WriteError : Type 0 where
  open_tmp write_tmp sync_tmp close_tmp backup promote sync_dir : WriteError

-- `os.OpenFile(tmp, O_CREATE|O_WRONLY|O_TRUNC)`
unfoldable pub create_tmp : Files → Files
create_tmp fs = record fs { tmp = holds [] }

-- `f.Write(data)`, as far as it comes
unfoldable pub write_bytes : Bytes → Files → Files
write_bytes b fs = record fs { tmp = holds b }

-- `os.Rename(path, bak)`, if `path` is there
unfoldable pub keep_backup : Files → Files
unfolding exists
keep_backup fs = if exists fs.main then record fs { main = absent; bak = fs.main } else fs

-- `os.Rename(tmp, path)`
unfoldable pub promote_tmp : Files → Files
promote_tmp fs = record fs { main = fs.tmp; tmp = absent }

-- `os.Rename(bak, path)`, which does nothing if there is no backup
unfoldable pub restore_backup : Files → Files
unfolding exists
restore_backup fs = if exists fs.bak then record fs { main = fs.bak; bak = absent } else fs

-- the deferred `os.Remove(tmp)`
unfoldable pub remove_tmp : Faults → Files → Files
remove_tmp f fs = if f.remove_fails then fs else record fs { tmp = absent }

-- From the renames on: the backup is kept, the temporary file promoted, the directory flushed.
replace_main : Faults → Files → Files × Result WriteError (Unit {0})
unfolding keep_backup promote_tmp restore_backup remove_tmp
replace_main f fs =
    let stat_ok = if f.stat_fails then false else exists fs.main in
    if (if stat_ok then f.backup_fails else false)
    then (remove_tmp f fs, err backup)
    else let kept = if stat_ok then keep_backup fs else fs in
      if f.promote_fails
      then (remove_tmp f (if f.restore_fails then kept else restore_backup kept), err promote)
      else (promote_tmp kept, if f.sync_dir_fails then err sync_dir else ok tt)

-- `AtomicWriteWithBackup`
unfoldable pub atomic_write_with_backup :
    Faults → Bytes → Files → Files × Result WriteError (Unit {0})
unfolding create_tmp write_bytes replace_main
atomic_write_with_backup f b fs =
    if f.open_fails
    then (fs, err open_tmp)
    else if f.write_fails
    then (remove_tmp f (write_bytes (take f.written b) (create_tmp fs)), err write_tmp)
    else let full = write_bytes b (create_tmp fs) in
      if f.sync_fails
      then (remove_tmp f full, err sync_tmp)
      else if f.close_fails
      then (remove_tmp f full, err close_tmp)
      else replace_main f full

abbrev pub max_state_file_size : ℕ
max_state_file_size = 16 * 1024 * 1024

-- A JSON decoder into an existing value: the value afterwards, and whether it succeeded. A failing
-- decoder may have changed the value.
pub record Codec (A : Type 0) : Type 0 where
  pub encode : A → Bytes
  pub decode : Bytes → A → A × Bool

pub data LoadError : Type 0 where
  not_exist read_failed too_large bad_json : LoadError

-- `bytes.TrimPrefix(data, {0xEF, 0xBB, 0xBF})`
unfoldable pub trim_bom : Bytes → Bytes
trim_bom (a ∷ b ∷ c ∷ rest) =
    if nat_beq a 0xEF && nat_beq b 0xBB && nat_beq c 0xBF then rest else a ∷ b ∷ c ∷ rest
trim_bom b = b

module _ {A : Type 0} (codec : Codec A) where
  load_bytes : Bytes → A → A × Result LoadError (Unit {0})
  unfolding trim_bom
  load_bytes b v =
      if ltb max_state_file_size (length b)
      then (v, err too_large)
      else let (v', decoded) = codec.decode (trim_bom b) v in
        (v', if decoded then ok tt else err bad_json)

  -- `LoadFile(path, v)`: the value that `v` points to afterwards, and the error.
  unfoldable pub load_file : File → A → A × Result LoadError (Unit {0})
  unfolding load_bytes
  load_file absent v = (v, err not_exist)
  load_file unreadable v = (v, err read_failed)
  load_file (holds b) v = load_bytes b v

  mark_backup : A × Result LoadError (Unit {0}) → A × Result LoadError Bool
  mark_backup (v, ok _) = (v, ok true)
  mark_backup (v, err e) = (v, err e)

  -- The second half of `loadWithFallback`: the backup is decoded into what the first half left.
  load_backup : Files → A × Result LoadError (Unit {0}) → A × Result LoadError Bool
  unfolding mark_backup load_file
  load_backup fs (v, ok _) = (v, ok false)
  load_backup fs (v, err _) = mark_backup (load_file fs.bak v)

  -- `loadWithFallback(path, v)`: the value afterwards, and whether the backup was used, or the
  -- error of the backup, which the source wraps.
  unfoldable pub load_with_fallback : Files → A → A × Result LoadError Bool
  unfolding load_backup load_file
  load_with_fallback fs v = load_backup fs (load_file fs.main v)
