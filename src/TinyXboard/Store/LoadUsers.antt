-- ===== src/TinyXboard/Store/LoadUsers.antt =====
-- Loading users.json (tiny-xboard/store.go): `loadUsersFromDisk`, `loadUsers`, `RefreshUsers`.
use mini_sb_xboard_agent.Base.{
  Bool, true, false, not, ◌||◌, ltb, List, [], ◌∷◌, if◌then◌else◌, Result, ok, err,
}
use mini_sb_xboard_agent.Base.Int.{ℤ, int_eq}
use mini_sb_xboard_agent.Base.Map.{Map, put, contains}
use mini_sb_xboard_agent.TinyXboard.Schema.{User, UsersFile, Traffic, zero_users_file}
use mini_sb_xboard_agent.TinyXboard.Validate.{validate_users_file}
use mini_sb_xboard_agent.TinyXboard.Persist.{
  Files, LoadError, Codec, load_file, load_with_fallback, exists,
}
use mini_sb_xboard_agent.TinyXboard.Store.State.{
  Env, World, Outcome, StoreError, load_failed, users_backup_unusable, users_backup_invalid,
  prune_to,
}
use mini_sb_xboard_agent.TinyXboard.Store.Save.{save_users}

-- The backup, read and validated after the main document was refused.
users_from_backup : UsersFile × Result LoadError (Unit {0}) → Result StoreError (UsersFile × Bool)
users_from_backup (uf, err e) = err (users_backup_unusable e)
users_from_backup (uf, ok _) = elim (validate_users_file uf) [
  | err e ↦ err (users_backup_invalid e)
  | ok _ ↦ ok (uf, true)
]

users_from_document :
    Codec UsersFile
    → Files
    → UsersFile × Result LoadError Bool
    → Result StoreError (UsersFile × Bool)
unfolding users_from_backup
users_from_document codec fs (uf, err e) = err (load_failed e)
users_from_document codec fs (uf, ok used_bak) = elim (validate_users_file uf) [
  | err _ ↦ users_from_backup (load_file codec fs.bak zero_users_file)
  | ok _ ↦ ok (uf, used_bak)
]

-- `loadUsersFromDisk`. The error of `loadWithFallback` is wrapped, and `os.IsNotExist` does not look
-- into a wrapped error, so the source's answer for a missing file is never given.
unfoldable pub load_users_from_disk : Codec UsersFile → Files → Result StoreError (UsersFile × Bool)
unfolding users_from_document
load_users_from_disk codec fs =
    users_from_document codec fs (load_with_fallback codec fs zero_users_file)

-- `for _, u := range users { m[u.ID] = u }`
unfoldable pub index_users : Map ℤ User → List User → Map ℤ User
index_users m [] = m
index_users m (u ∷ us) = index_users (put u.id u m) us

-- Some counter belongs to no user of the map.
unfoldable pub any_unknown : Map ℤ User → Map ℤ Traffic → Bool
any_unknown users [] = false
any_unknown users ((id, t) ∷ m) = not (contains id users) || any_unknown users m

module _ (env : Env) where
  restore_users : Bool → World → Outcome
  restore_users used_bak w = if used_bak then save_users env w else (w, ok tt)

  unfoldable pub with_users : UsersFile → World → World
  with_users uf w = record w {
    store = record w.store {
      users = index_users [] uf.users;
      users_loaded = true;
      users_mod = env.users_mod_time;
    };
  }

  -- `loadUsers`: a missing users.json is created from the users in memory.
  unfoldable pub load_users : World → Outcome
  unfolding restore_users with_users
  load_users w =
      if not (exists w.disk.users.main)
      then save_users env w
      else elim (load_users_from_disk env.codecs.users w.disk.users) [
        | err e ↦ (w, err e)
        | ok (uf, used_bak) ↦ restore_users used_bak (with_users uf w)
      ]

  -- The counters of removed users go, and if there were any the traffic is dirty.
  unfoldable pub prune_after_refresh : World → World
  prune_after_refresh w = record w {
    store = record w.store {
      traffic = prune_to w.store.users w.store.traffic;
      dirty = w.store.dirty || any_unknown w.store.users w.store.traffic;
    };
  }

  -- `RefreshUsers`
  unfoldable pub refresh_users : World → Outcome
  unfolding restore_users with_users prune_after_refresh
  refresh_users w =
      if not (exists w.disk.users.main)
      then (w, ok tt)
      else if not (not w.store.users_loaded || ltb w.store.users_mod env.users_mod_time)
      then (w, ok tt)
      else elim (load_users_from_disk env.codecs.users w.disk.users) [
        | err e ↦ (w, err e)
        | ok (uf, used_bak) ↦ restore_users used_bak (prune_after_refresh (with_users uf w))
      ]
