-- ===== src/TinyXboard/Store/LoadTraffic.antt =====
-- Loading traffic.json and starting the store (tiny-xboard/store.go): `loadTraffic`,
-- `normalizeTrafficFile`, `pruneTraffic`, `NewStore`.
use mini_sb_xboard_agent.Base.{
  Bool, true, not, Option, none, some, [], ◌∷◌, if◌then◌else◌, Result, ok, err,
}
use mini_sb_xboard_agent.Base.Int.{ℤ, pos, ltb_ℤ, leb_ℤ, int_eq}
use mini_sb_xboard_agent.Base.Text.{Text, atoi}
use mini_sb_xboard_agent.Base.Map.{Map, put}
use mini_sb_xboard_agent.TinyXboard.Schema.{Traffic, TrafficFile, zero_traffic_file}
use mini_sb_xboard_agent.TinyXboard.Validate.{validate_traffic_file}
use mini_sb_xboard_agent.TinyXboard.Persist.{
  Files, LoadError, Codec, load_file, load_with_fallback, exists,
}
use mini_sb_xboard_agent.TinyXboard.Store.State.{
  Disk, Env, World, Outcome, empty_store, and_then, prune_to,
}
use mini_sb_xboard_agent.TinyXboard.Store.Save.{save_traffic}
use mini_sb_xboard_agent.TinyXboard.Store.LoadNode.{load_node}
use mini_sb_xboard_agent.TinyXboard.Store.LoadUsers.{load_users}

-- `if v < 0 { v = 0 }`
abbrev pub clamp : ℤ → ℤ
clamp v = if ltb_ℤ v (pos 0) then pos 0 else v

-- One entry of the document: skipped if the key is no positive number.
unfoldable pub normalize_entry : Map ℤ Traffic → Text → Traffic → Map ℤ Traffic
normalize_entry m key t = elim (atoi key) [
  | none ↦ m
  | some id ↦
      if leb_ℤ id (pos 0)
      then m
      else put id (record { upload = clamp t.upload; download = clamp t.download }) m
]

unfoldable pub normalize_entries : Map ℤ Traffic → Map Text Traffic → Map ℤ Traffic
unfolding normalize_entry
normalize_entries m [] = m
normalize_entries m ((key, t) ∷ rest) = normalize_entries (normalize_entry m key t) rest

unfoldable pub normalize_traffic_file : TrafficFile → Map ℤ Traffic
unfolding normalize_entries
normalize_traffic_file tf = normalize_entries [] tf.users

-- The document that `loadTraffic` settles on and whether it is the backup; `none` if there is no
-- usable one.
traffic_from_backup : TrafficFile × Result LoadError (Unit {0}) → Option (TrafficFile × Bool)
traffic_from_backup (tf, err _) = none
traffic_from_backup (tf, ok _) = elim (validate_traffic_file tf) [
  | err _ ↦ none
  | ok _ ↦ some (tf, true)
]

traffic_from_document :
    Codec TrafficFile → Files → TrafficFile × Result LoadError Bool → Option (TrafficFile × Bool)
unfolding traffic_from_backup
traffic_from_document codec fs (tf, err _) = none
traffic_from_document codec fs (tf, ok used_bak) = elim (validate_traffic_file tf) [
  | err _ ↦ traffic_from_backup (load_file codec fs.bak zero_traffic_file)
  | ok _ ↦ some (tf, used_bak)
]

unfoldable pub find_traffic : Codec TrafficFile → Files → Option (TrafficFile × Bool)
unfolding traffic_from_document
find_traffic codec fs =
    traffic_from_document codec fs (load_with_fallback codec fs zero_traffic_file)

-- The write of `loadTraffic`, whose failure is only logged.
abbrev ignore : Outcome → World
ignore o = o.0

module _ (env : Env) where
  unfoldable pub install_traffic : World → Option (TrafficFile × Bool) → World
  unfolding normalize_traffic_file
  install_traffic w none = record w { store = record w.store { traffic = [] } }
  install_traffic w (some (tf, used_bak)) =
      let w' : World = record w {
        store = record w.store { traffic = normalize_traffic_file tf };
      } in
      if used_bak then ignore (save_traffic env w') else w'

  -- `loadTraffic` cannot fail.
  unfoldable pub load_traffic : World → World
  unfolding install_traffic
  load_traffic w =
      if not (exists w.disk.traffic.main)
      then ignore (save_traffic env w)
      else install_traffic w (find_traffic env.codecs.traffic w.disk.traffic)

-- `pruneTraffic`
unfoldable pub prune_traffic : World → World
prune_traffic w = record w {
  store = record w.store { traffic = prune_to w.store.users w.store.traffic };
}

-- `NewStore` on a directory that could be created: each of the three loads meets its own
-- environment.
unfoldable pub new_store : Env → Env → Env → Disk → Outcome
new_store env_node env_users env_traffic disk =
    and_then (load_node env_node (record { store = empty_store; disk = disk })) (λ w.
      and_then (load_users env_users w)
        (λ w'. (prune_traffic (load_traffic env_traffic w'), ok tt)))
