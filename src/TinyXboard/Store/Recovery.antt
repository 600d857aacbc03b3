-- ===== src/TinyXboard/Store/Recovery.antt =====
-- Starting after a crash, and reloading users (tiny-xboard/store.go).
use mini_sb_xboard_agent.Base.{
  ℕ, ltb, ◌≡◌, refl, ap, ◌∙◌, true, false, not, ◌||◌, ◌&&◌, [], ◌∷◌, arith, ok, err, inl, inr,
  Bool-cases, Option-cases,
}
use mini_sb_xboard_agent.Base.Int.{ℤ, int_eq}
use mini_sb_xboard_agent.Base.Sort.{sort_by}
use mini_sb_xboard_agent.Base.Map.{Map, contains, retain}
use mini_sb_xboard_agent.TinyXboard.Schema.{UsersFile, Traffic, known_version}
use mini_sb_xboard_agent.TinyXboard.Persist.{
  Bytes, Files, absent, holds, no_faults, exists, atomic_write_with_backup,
}
use mini_sb_xboard_agent.TinyXboard.Persist.Crash.{interrupted}
use mini_sb_xboard_agent.TinyXboard.Store.State.{
  Env, Disk, World, Outcome, and_then, prune_to, empty_store,
}
use mini_sb_xboard_agent.TinyXboard.Store.Save.{save_users, save_traffic, users_document}
use mini_sb_xboard_agent.TinyXboard.Store.LoadNode.{load_node}
use mini_sb_xboard_agent.TinyXboard.Store.LoadNode.Keeps.{load_node_keeps}
use mini_sb_xboard_agent.TinyXboard.Store.LoadTraffic.{
  find_traffic, install_traffic, load_traffic, prune_traffic, new_store,
}
use mini_sb_xboard_agent.TinyXboard.Store.LoadUsers.{
  load_users_from_disk, load_users, refresh_users, index_users, any_unknown,
}

-- A directory after a write of users.json was interrupted between its two renames.
abbrev pub crashed : ℕ → Bytes → Disk → Disk
crashed part b disk = record disk { users = interrupted 4 part b disk.users }

interrupted_main :
    (part : ℕ) (b : Bytes) (fs : Files) (b_old : Bytes)
    → fs.main ≡ holds b_old
    → (interrupted 4 part b fs).main ≡ absent
unfolding interrupted exists
interrupted_main part b fs b_old m = ground arith

interrupted_bak :
    (part : ℕ) (b : Bytes) (fs : Files) (b_old : Bytes)
    → fs.main ≡ holds b_old
    → (interrupted 4 part b fs).bak ≡ holds b_old
unfolding interrupted exists
interrupted_bak part b fs b_old m = ground arith

-- A missing users.json is written with the users in memory.
created_users :
    (env : Env) (w : World)
    → env.faults ≡ no_faults
    → w.disk.users.main ≡ absent
    → ((load_users env w).1 ≡ ok tt)
      × ((load_users env w).0.store ≡ w.store)
      × ((load_users env w).0.disk.users.main
          ≡ holds (env.codecs.users.encode (users_document w.store.users)))
      × ((load_users env w).0.disk.users.bak ≡ w.disk.users.bak)
unfolding load_users save_users exists atomic_write_with_backup
created_users env w f m = rw (f, m) (refl, refl, refl, refl)

load_traffic_keeps :
    (env : Env) (w : World)
    → ((load_traffic env w).store.users ≡ w.store.users)
      × ((load_traffic env w).disk.users ≡ w.disk.users)
unfolding load_traffic install_traffic save_traffic
load_traffic_keeps env w = elim (Bool-cases (exists w.disk.traffic.main)) [
  | inr missing ↦ rw (load_traffic, missing) (refl, refl)
  | inl there ↦ elim (Option-cases (find_traffic env.codecs.traffic w.disk.traffic)) [
    | inl unusable ↦ rw (load_traffic, there, install_traffic, unusable) (refl, refl)
    | inr ((tf, true), usable) ↦ rw (load_traffic, there, install_traffic, usable) (refl, refl)
    | inr ((tf, false), usable) ↦ rw (load_traffic, there, install_traffic, usable) (refl, refl)
  ]
]

-- What `saveUsers` encodes of no users.
abbrev pub no_users_file : UsersFile
no_users_file = record { version = known_version; users = [] }

no_users_document : users_document [] ≡ no_users_file
unfolding users_document sort_by
no_users_document = refl

and_then_ok : (o : Outcome) (f : World → Outcome) → o.1 ≡ ok tt → and_then o f ≡ f o.0
and_then_ok (w, ok _) f h = refl
and_then_ok (w, err e) f h = absurd (ground (arith, h))

prune_to-none : (m : Map ℤ Traffic) → prune_to [] m ≡ []
unfolding prune_to retain contains
prune_to-none [] = refl
prune_to-none (e ∷ m) = prune_to-none m

-- If a start, `NewStore`, on the directory that a crash left between the two renames of a write of
-- users.json loads the node configuration, and meets no fault when it writes users.json: it succeeds,
-- with no users and no counters in memory, and with a new users.json that is the encoding of an empty
-- list of users, while the users from before the crash are left in the backup.
pub crash_drops_users :
    (env_node env_users env_traffic : Env) (disk : Disk) (part : ℕ) (b_old b_new : Bytes)
    → let start : World = record { store = empty_store; disk = crashed part b_new disk } in
      let after = new_store env_node env_users env_traffic (crashed part b_new disk) in
      (load_node env_node start).1 ≡ ok tt
      → env_users.faults ≡ no_faults
      → disk.users.main ≡ holds b_old
      → (after.1 ≡ ok tt)
        × (after.0.store.users ≡ [])
        × (after.0.store.traffic ≡ [])
        × (after.0.disk.users.main ≡ holds (env_users.codecs.users.encode no_users_file))
        × (after.0.disk.users.bak ≡ holds b_old)
unfolding new_store prune_traffic users_document
crash_drops_users env_node env_users env_traffic disk part b_old b_new loaded f m =
    let start : World = record { store = empty_store; disk = crashed part b_new disk } in
    let w₁ = (load_node env_node start).0 in
    let (u, _, d) = load_node_keeps env_node start in
    let gone : w₁.disk.users.main ≡ absent =
      ap (λ x. x.main) d ∙ interrupted_main part b_new disk.users b_old m in
    let old : w₁.disk.users.bak ≡ holds b_old =
      ap (λ x. x.bak) d ∙ interrupted_bak part b_new disk.users b_old m in
    let (done, same, file, bak) = created_users env_users w₁ f gone in
    let w₂ = (load_users env_users w₁).0 in
    let (ku, kd) = load_traffic_keeps env_traffic w₂ in
    let w₃ = load_traffic env_traffic w₂ in
    let none_left : w₃.store.users ≡ [] = ku ∙ ap (λ x. x.users) same ∙ u in
    let whole : new_store env_node env_users env_traffic (crashed part b_new disk)
        ≡ (prune_traffic w₃, ok tt) =
      and_then_ok (load_node env_node start) _ loaded
      ∙ and_then_ok (load_users env_users w₁) _ done in
    rw whole (
      refl,
      none_left,
      ap (λ us. prune_to us w₃.store.traffic) none_left ∙ prune_to-none w₃.store.traffic,
      ap (λ x. x.main) kd
          ∙ file
          ∙ ap (λ us. holds (env_users.codecs.users.encode (users_document us))) u
          ∙ ap (λ x. holds (env_users.codecs.users.encode x)) no_users_document,
      ap (λ x. x.bak) kd ∙ bak ∙ old,
    )

-- `os.Stat` finds users.json, and it is newer than the users in memory, or none were loaded yet.
abbrev pub IsStale : Env → World → Type 0
IsStale env w =
    (exists w.disk.users.main ≡ true)
    × ((not w.store.users_loaded || ltb w.store.users_mod env.users_mod_time) ≡ true)

module _ (env : Env) (w : World) where
  -- If users.json changed and is usable, its users replace those in memory, the counters of all
  -- others are dropped, and that marks the traffic dirty if any were.
  pub refresh_users_reloads :
      {uf : UsersFile}
      → IsStale env w
      → load_users_from_disk env.codecs.users w.disk.users ≡ ok (uf, false)
      → ((refresh_users env w).1 ≡ ok tt)
        × ((refresh_users env w).0.store.users ≡ index_users [] uf.users)
        × ((refresh_users env w).0.store.traffic
            ≡ prune_to (index_users [] uf.users) w.store.traffic)
        × ((refresh_users env w).0.store.dirty
            ≡ (w.store.dirty || any_unknown (index_users [] uf.users) w.store.traffic))
  unfolding refresh_users
  refresh_users_reloads s h = ground arith

  -- If users.json did not change, or cannot be found, `RefreshUsers` does nothing.
  pub refresh_users_idle :
      ((exists w.disk.users.main
          && (not w.store.users_loaded || ltb w.store.users_mod env.users_mod_time))
        ≡ false)
      → refresh_users env w ≡ (w, ok tt)
  unfolding refresh_users
  refresh_users_idle h = ground arith
