-- ===== src/TinyXboard/Store/Users/Operations.antt =====
-- `SetUsers`, `AddUser`, `DeleteUser` and `RefreshUsers` (tiny-xboard/store.go) keep the invariant,
-- whether or not they fail.
use mini_sb_xboard_agent.Base.{
  ℕ, ltb, ◌≡◌, refl, inl, inr, Bool, not, List, [], arith, ok, ◌||◌, ◌⊎◌, Bool-cases, Result-cases,
}
use mini_sb_xboard_agent.Base.Int.{ℤ, int_eq}
use mini_sb_xboard_agent.Base.Map.{Map}
use mini_sb_xboard_agent.TinyXboard.Schema.{User, UsersFile}
use mini_sb_xboard_agent.TinyXboard.Validate.Laws.{
  IsUsersFile, validate_user_iff, validate_users_file_iff,
}
use mini_sb_xboard_agent.TinyXboard.Persist.{Files, Codec, exists}
use mini_sb_xboard_agent.TinyXboard.Store.State.{Store, Env, World, prune_to}
use mini_sb_xboard_agent.TinyXboard.Store.Save.{save_users}
use mini_sb_xboard_agent.TinyXboard.Store.LoadUsers.{
  index_users, load_users_from_disk, refresh_users, with_users, prune_after_refresh,
}
use mini_sb_xboard_agent.TinyXboard.Store.Users.{
  replace_users, insert_user, remove_user, set_users, add_user, delete_user,
}
use mini_sb_xboard_agent.TinyXboard.Store.Users.Invariant.{
  IsValid, index_users-IsUserMap, prune_to-IsTrafficFor, replace_users-IsValid, insert_user-IsValid,
  remove_user-IsValid,
}

-- Writing users.json does not touch the state in memory.
pub store-save_users : (env : Env) (w : World) → (save_users env w).0.store ≡ w.store
unfolding save_users
store-save_users env w = refl

pub set_users-IsValid :
    (env : Env) (us : List User) (w : World)
    → IsValid w.store
    → IsValid (set_users env us w).0.store
unfolding set_users
set_users-IsValid env us w v = ground (
  arith,
  replace_users-IsValid us w.store,
  store-save_users env (record w { store = replace_users us w.store }),
)

pub add_user-IsValid :
    (env : Env) (u : User) (w : World) → IsValid w.store → IsValid (add_user env u w).0.store
unfolding add_user
add_user-IsValid env u w v = ground (
  arith,
  (validate_user_iff u).0,
  insert_user-IsValid u w.store,
  store-save_users env (record w { store = insert_user u w.store }),
)

pub delete_user-IsValid :
    (env : Env) (id : ℤ) (w : World) → IsValid w.store → IsValid (delete_user env id w).0.store
unfolding delete_user
delete_user-IsValid env id w v = ground (
  arith,
  remove_user-IsValid id w.store,
  store-save_users env (record w { store = remove_user id w.store }),
)

-- A document that `loadUsersFromDisk` returns has passed the checks, from either file.
pub load_users_from_disk-IsUsersFile :
    (codec : Codec UsersFile) (fs : Files) (uf : UsersFile) (used : Bool)
    → load_users_from_disk codec fs ≡ ok (uf, used)
    → IsUsersFile uf
unfolding load_users_from_disk
load_users_from_disk-IsUsersFile codec fs uf used h = (validate_users_file_iff uf).0 (ground arith)

-- The state after a new user map has come from disk, with the counters of the others pruned.
refreshed-IsValid :
    (s : Store) (uf : UsersFile) (m : Map ℤ User) (d l : Bool) (t : ℕ)
    → IsUsersFile uf
    → m ≡ index_users [] uf.users
    → IsValid s
    → IsValid (record s {
      users = m;
      traffic = prune_to m s.traffic;
      users_loaded = l;
      users_mod = t;
      dirty = d;
    })
refreshed-IsValid s uf m d l t h e v = record {
  users_valid = rw e (index_users-IsUserMap uf.users h.each h.few);
  traffic_valid = prune_to-IsTrafficFor m s.traffic v.traffic_valid.one_each;
}

-- `RefreshUsers` leaves the state as it was, or takes over a users document that passed the checks.
pub refresh_users_cases :
    (env : Env) (w : World)
    → ((refresh_users env w).0.store ≡ w.store)
      ⊎ ((uf : UsersFile) × IsUsersFile uf
          × ((refresh_users env w).0.store ≡ (prune_after_refresh env (with_users env uf w)).store))
unfolding refresh_users
refresh_users_cases env w =
    elim (Result-cases (load_users_from_disk env.codecs.users w.disk.users)) [
      | inl (e, failed) ↦ inl (ground arith)
      | inr ((uf, used), loaded) ↦
          let h = load_users_from_disk-IsUsersFile env.codecs.users w.disk.users uf used loaded in
          let saved = store-save_users env (prune_after_refresh env (with_users env uf w)) in
          elim (Bool-cases (exists w.disk.users.main)) [
            | inl there ↦
                elim (Bool-cases
                  (not w.store.users_loaded || ltb w.store.users_mod env.users_mod_time)) [
                    | inl changed ↦ inr (uf, h, ground (arith, saved))
                    | inr same ↦ inl (ground arith)
                  ]
            | inr missing ↦ inl (ground arith)
          ]
    ]

pub refresh_users-IsValid :
    (env : Env) (w : World) → IsValid w.store → IsValid (refresh_users env w).0.store
unfolding with_users prune_after_refresh
refresh_users-IsValid env w v = elim (refresh_users_cases env w) [
  | inl same ↦ rw same v
  | inr (uf, h, e) ↦ rw e (refreshed-IsValid w.store uf _ _ _ _ h refl v)
]
