-- ===== src/TinyXboard/Store/Users.antt =====
-- The user mutations and the traffic accumulation of tiny-xboard/store.go: `SetUsers`, `AddUser`,
-- `DeleteUser`, `EnabledUsers`, `Accumulate`, `SnapshotTraffic`.
pub mod Invariant
pub mod Operations
pub mod Steps
pub mod Counters
pub mod Enabled
use mini_sb_xboard_agent.Base.{
  Bool, true, false, not, ◌||◌, Option, none, some, List, [], ◌∷◌, map, ltb, leb, length, select,
  if◌then◌else◌, Result, ok, err, ◌>>=◌, ◌>>◌, fail_if,
}
use mini_sb_xboard_agent.Base.Int.{ℤ, pos, ltb_ℤ, int_eq, add64}
use mini_sb_xboard_agent.Base.Map.{Map, lookup, contains, put, delete}
use mini_sb_xboard_agent.Base.Sort.{sort_by}
use mini_sb_xboard_agent.TinyXboard.Schema.{User, Traffic, max_users}
use mini_sb_xboard_agent.TinyXboard.Validate.{Invalid, too_many_users, duplicate_id, validate_user}
use mini_sb_xboard_agent.TinyXboard.Store.State.{
  Store, Env, World, Outcome, StoreError, invalid, user_exists, user_missing, user_limit, prune_to,
}
use mini_sb_xboard_agent.TinyXboard.Store.Save.{save_users}
use mini_sb_xboard_agent.TinyXboard.Store.LoadUsers.{index_users}

-- The first loop of `SetUsers`.
unfoldable pub validate_each : List User → Result Invalid (Unit {0})
validate_each [] = ok tt
validate_each (u ∷ us) = do validate_user u; validate_each us

-- The second loop of `SetUsers`, with the set of the ids seen so far.
unfoldable pub find_duplicate : Map ℤ Unit → List User → Result Invalid (Unit {0})
find_duplicate seen [] = ok tt
find_duplicate seen (u ∷ us) = do
  fail_if (contains u.id seen) duplicate_id
  find_duplicate (put u.id tt seen) us

unfoldable pub check_new_users : List User → Result Invalid (Unit {0})
unfolding validate_each find_duplicate
check_new_users users = do
  fail_if (ltb max_users (length users)) too_many_users
  validate_each users
  find_duplicate [] users

-- The change of the state that `SetUsers` makes under the lock.
unfoldable pub replace_users : List User → Store → Store
replace_users users s =
    let m = index_users [] users in record s { users = m; traffic = prune_to m s.traffic }

unfoldable pub insert_user : User → Store → Store
insert_user u s = record s { users = put u.id u s.users }

unfoldable pub remove_user : ℤ → Store → Store
remove_user id s = record s { users = delete id s.users; traffic = delete id s.traffic }

module _ (env : Env) where
  unfoldable pub set_users : List User → World → Outcome
  unfolding replace_users
  set_users users w = elim (check_new_users users) [
    | err e ↦ (w, err (invalid e))
    | ok _ ↦ save_users env (record w { store = replace_users users w.store })
  ]

  unfoldable pub add_user : User → World → Outcome
  unfolding insert_user
  add_user u w = elim (validate_user u) [
    | err e ↦ (w, err (invalid e))
    | ok _ ↦
        if contains u.id w.store.users
        then (w, err user_exists)
        else if leb max_users (length w.store.users)
        then (w, err user_limit)
        else save_users env (record w { store = insert_user u w.store })
  ]

  unfoldable pub delete_user : ℤ → World → Outcome
  unfolding remove_user
  delete_user id w =
      if not (contains id w.store.users)
      then (w, err user_missing)
      else save_users env (record w { store = remove_user id w.store })

-- `EnabledUsers`
unfoldable pub enabled_users : Store → List User
enabled_users s = sort_by (λ u. u.id) (select (λ u. u.enabled) (map (λ e. e.1) s.users))

-- The counters of a user, or the fresh zero ones.
unfoldable pub counters_of : ℤ → Map ℤ Traffic → Traffic
counters_of uid traffic = elim (lookup uid traffic) [
  | none ↦ record { upload = pos 0; download = pos 0 }
  | some t ↦ t
]

unfoldable pub add_traffic : Traffic → ℤ → ℤ → Traffic
add_traffic t upload download = record {
  upload = add64 t.upload upload;
  download = add64 t.download download;
}

-- `Accumulate`
unfoldable pub accumulate : ℤ → ℤ → ℤ → Store → Store × Bool
unfolding counters_of add_traffic
accumulate uid upload download s =
    if ltb_ℤ upload (pos 0) || ltb_ℤ download (pos 0)
    then (s, false)
    else if not (contains uid s.users)
    then (s, false)
    else (
      record s {
        traffic = put uid (add_traffic (counters_of uid s.traffic) upload download) s.traffic;
        dirty = true;
      },
      true,
    )

-- `SnapshotTraffic`
unfoldable pub snapshot_traffic : Store → Map ℤ Traffic
snapshot_traffic s = s.traffic
