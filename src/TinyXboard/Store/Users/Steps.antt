-- ===== src/TinyXboard/Store/Users/Steps.antt =====
-- Every history of the store keeps the invariant: it starts with `NewStore`, and goes on by the
-- operations of tiny-xboard/store.go, each with faults of its own.
use mini_sb_xboard_agent.Base.{
  ◌≡◌, refl, inl, inr, ap, Bool, true, false, Option, some, none, List, [], ◌∷◌, arith, ok, err,
  Result-cases, Bool-cases, Option-cases,
}
use mini_sb_xboard_agent.Base.Int.{ℤ, int_eq}
use mini_sb_xboard_agent.Base.Text.{Text, atoi}
use mini_sb_xboard_agent.Base.Map.{Map, IsMap, put-IsMap}
use mini_sb_xboard_agent.TinyXboard.Schema.{User, Traffic, TrafficFile}
use mini_sb_xboard_agent.TinyXboard.Persist.{exists}
use mini_sb_xboard_agent.TinyXboard.Store.State.{Disk, Env, World, Outcome, and_then, empty_store}
use mini_sb_xboard_agent.TinyXboard.Store.Save.{save_node, save_traffic, flush_traffic_if_dirty}
use mini_sb_xboard_agent.TinyXboard.Store.LoadNode.{load_node}
use mini_sb_xboard_agent.TinyXboard.Store.LoadNode.Keeps.{load_node_keeps}
use mini_sb_xboard_agent.TinyXboard.Store.LoadUsers.{
  load_users_from_disk, load_users, refresh_users, with_users,
}
use mini_sb_xboard_agent.TinyXboard.Store.LoadTraffic.{
  load_traffic, find_traffic, install_traffic, clamp, normalize_entry, normalize_entries,
  prune_traffic, new_store,
}
use mini_sb_xboard_agent.TinyXboard.Store.Users.{set_users, add_user, delete_user, accumulate}
use mini_sb_xboard_agent.TinyXboard.Store.Users.Invariant.{
  IsValid, IsUserMap, index_users-IsUserMap, prune_to-IsTrafficFor, accumulate-IsValid,
}
use mini_sb_xboard_agent.TinyXboard.Store.Users.Operations.{
  load_users_from_disk-IsUsersFile, store-save_users, set_users-IsValid, add_user-IsValid,
  delete_user-IsValid, refresh_users-IsValid,
}

-- One operation on the store, or a request's part of one.
pub data Step (w : World) : World → Type 0 where
  sets : (env : Env) (us : List User) → Step w (set_users env us w).0
  adds : (env : Env) (u : User) → Step w (add_user env u w).0
  deletes : (env : Env) (id : ℤ) → Step w (delete_user env id w).0
  refreshes : (env : Env) → Step w (refresh_users env w).0
  accumulates : (uid up down : ℤ) → Step w (record w { store = (accumulate uid up down w.store).0 })
  flushes : (env : Env) → Step w (flush_traffic_if_dirty env w)

-- A store that `NewStore` returned, and what any operations made of it.
pub data Reachable : World → Type 0 where
  starts :
      (env_node env_users env_traffic : Env) (disk : Disk) {w : World}
      → new_store env_node env_users env_traffic disk ≡ (w, ok tt)
      → Reachable w
  steps : {w w' : World} → Reachable w → Step w w' → Reachable w'

store-save_node : (env : Env) (w : World) → (save_node env w).0.store ≡ w.store
unfolding save_node
store-save_node env w = ground arith

store-save_traffic : (env : Env) (w : World) → (save_traffic env w).0.store ≡ w.store
unfolding save_traffic
store-save_traffic env w = refl

normalize_entry-IsMap :
    (m : Map ℤ Traffic) (k : Text) (t : Traffic) → IsMap m → IsMap (normalize_entry m k t)
unfolding normalize_entry
normalize_entry-IsMap m k t h = elim (Option-cases (atoi k)) [
  | inl bad ↦ ground arith
  | inr (id, good) ↦
      ground
        (arith, put-IsMap id (record { upload = clamp t.upload; download = clamp t.download }) m h)
]

normalize_entries-IsMap :
    (m : Map ℤ Traffic) (es : Map Text Traffic) → IsMap m → IsMap (normalize_entries m es)
unfolding normalize_entries
normalize_entries-IsMap m [] h = h
normalize_entries-IsMap m ((k, t) ∷ es) h =
    normalize_entries-IsMap (normalize_entry m k t) es (normalize_entry-IsMap m k t h)

-- The users stay, and there is at most one counter for each id.
abbrev LoadsCounters : World → World → Type 0
LoadsCounters w w' = (w'.store.users ≡ w.store.users) × IsMap w'.store.traffic

install_traffic_lem :
    (env : Env) (w : World) (o : Option (TrafficFile × Bool))
    → LoadsCounters w (install_traffic env w o)
unfolding install_traffic save_traffic
install_traffic_lem env w none = (refl, tt)
install_traffic_lem env w (some (tf, true)) = (refl, normalize_entries-IsMap [] tf.users tt)
install_traffic_lem env w (some (tf, false)) = (refl, normalize_entries-IsMap [] tf.users tt)

load_traffic_lem :
    (env : Env) (w : World) → IsMap w.store.traffic → LoadsCounters w (load_traffic env w)
unfolding load_traffic
load_traffic_lem env w h = elim (Bool-cases (exists w.disk.traffic.main)) [
  | inl there ↦
      rw (there, load_traffic)
        (install_traffic_lem env w (find_traffic env.codecs.traffic w.disk.traffic))
  | inr missing ↦ rw (missing, load_traffic) (rw store-save_traffic (refl, h))
]

load_users_lem :
    (env : Env) (w w' : World)
    → load_users env w ≡ (w', ok tt)
    → IsUserMap w.store.users
    → IsUserMap w'.store.users × (w'.store.traffic ≡ w.store.traffic)
unfolding load_users with_users
load_users_lem env w w' h v =
    elim (Result-cases (load_users_from_disk env.codecs.users w.disk.users)) [
      | inl (e, failed) ↦ ground (arith, store-save_users env w)
      | inr ((uf, used), loaded) ↦
          let u = load_users_from_disk-IsUsersFile env.codecs.users w.disk.users uf used loaded in
          ground (
            arith,
            index_users-IsUserMap uf.users u.each u.few,
            store-save_users env w,
            store-save_users env (with_users env uf w),
          )
    ]

prune_traffic-IsValid :
    (w : World) → IsUserMap w.store.users → IsMap w.store.traffic → IsValid (prune_traffic w).store
unfolding prune_traffic
prune_traffic-IsValid w u t = record {
  users_valid = u;
  traffic_valid = prune_to-IsTrafficFor w.store.users w.store.traffic t;
}

no_users : IsUserMap []
no_users = record { one_each = tt; keyed = tt; few = omega arith }

and_then-eq-ok :
    (o : Outcome) (f : World → Outcome) (w : World)
    → and_then o f ≡ (w, ok tt)
    → (o.1 ≡ ok tt) × (f o.0 ≡ (w, ok tt))
and_then-eq-ok (w', ok _) f w h = (refl, h)
and_then-eq-ok (w', err e) f w h = cc

new_store-IsValid :
    (env_node env_users env_traffic : Env) (disk : Disk) (w : World)
    → new_store env_node env_users env_traffic disk ≡ (w, ok tt)
    → IsValid w.store
unfolding new_store
new_store-IsValid env_node env_users env_traffic disk w h =
    let (u, t, _) = load_node_keeps env_node (record { store = empty_store; disk = disk }) in
    let (loaded, rest) =
      and_then-eq-ok (load_node env_node (record { store = empty_store; disk = disk })) _ w h in
    let w1 = (load_node env_node (record { store = empty_store; disk = disk })).0 in
    let (done, last) = and_then-eq-ok (load_users env_users w1) _ w rest in
    let w2 = (load_users env_users w1).0 in
    let (users_ok, kept) =
      load_users_lem env_users w1 w2 (ap (λ r. (w2, r)) done) (rw u no_users) in
    let (same, counters) = load_traffic_lem env_traffic w2 (rw (kept, t) tt) in
    rw (← ap (λ p. p.0) last)
      (prune_traffic-IsValid (load_traffic env_traffic w2) (rw same users_ok) counters)

flush-IsValid :
    (env : Env) (w : World) → IsValid w.store → IsValid (flush_traffic_if_dirty env w).store
unfolding flush_traffic_if_dirty
flush-IsValid env w v = elim (Bool-cases w.store.dirty) [
  | inl dirty ↦
      elim (Result-cases
        (save_traffic env (record w { store = record w.store { dirty = false } })).1) [
          | inl (e, failed) ↦ ground (
            arith,
            store-save_traffic env (record w { store = record w.store { dirty = false } }),
          )
          | inr (_, written) ↦ ground (
            arith,
            store-save_traffic env (record w { store = record w.store { dirty = false } }),
          )
        ]
  | inr clean ↦ ground arith
]

Step-IsValid : {w w' : World} → Step w w' → IsValid w.store → IsValid w'.store
Step-IsValid {w} (sets env us) v = set_users-IsValid env us w v
Step-IsValid {w} (adds env u) v = add_user-IsValid env u w v
Step-IsValid {w} (deletes env id) v = delete_user-IsValid env id w v
Step-IsValid {w} (refreshes env) v = refresh_users-IsValid env w v
Step-IsValid {w} (accumulates uid up down) v = accumulate-IsValid uid up down w.store v
Step-IsValid {w} (flushes env) v = flush-IsValid env w v

-- Whatever the files held and whichever writes failed: once `NewStore` has returned a store, and
-- after any sequence of `SetUsers`, `AddUser`, `DeleteUser`, `RefreshUsers`, `Accumulate` and
-- `flushTrafficIfDirty`, there are at most 1000 users, each under its own id, each with a positive
-- id, a UUID or a password and a speed limit of 0 or more; and there is at most one counter for
-- each id, and counters only for known users.
pub Reachable-IsValid : {w : World} → Reachable w → IsValid w.store
Reachable-IsValid (starts a b c d {w} h) = new_store-IsValid a b c d w h
Reachable-IsValid (steps r s) = Step-IsValid s (Reachable-IsValid r)
