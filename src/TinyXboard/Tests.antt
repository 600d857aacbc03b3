-- ===== src/TinyXboard/Tests.antt =====
-- The theorems on tiny-xboard/ at concrete inputs.
use mathlib.Core.List.{Mem}
use mini_sb_xboard_agent.TinyXboard.Store.State.{Disk, empty_store}
use mini_sb_xboard_agent.TinyXboard.Persist.{absent}
use mini_sb_xboard_agent.Base.{
  none, ℕ, ◌≡◌, ◌≢◌, refl, ◌↔◌, ◌⊎◌, length, nat_beq, Bool, true, List, [], ◌∷◌, arith, ok,
  if◌then◌else◌,
}
use mini_sb_xboard_agent.Base.Int.{ℤ, pos, negsuc, ◌<ℤ◌, int_eq, max_int64}
use mini_sb_xboard_agent.Base.Text.{lit, text_eq, text_beq, to_lower, trim_space, itoa}
use mini_sb_xboard_agent.Base.Map.{AllEntries, lookup, contains, put}
use mini_sb_xboard_agent.Base.Sort.{IsSortedBy}
use mini_sb_xboard_agent.TinyXboard.Schema.{
  NodeEntry, default_node, entry_from_node_file, User, UsersFile, zero_users_file,
  zero_traffic_file,
}
use mini_sb_xboard_agent.TinyXboard.NodeType.{both, is_served_type, normalize_node_type}
use mini_sb_xboard_agent.TinyXboard.Validate.{
  validate_node_entry, validate_users_file, validate_nodes_file,
}
use mini_sb_xboard_agent.TinyXboard.Validate.Laws.{
  IsUsersFile, validate_users_file_iff, IsNodesFile, validate_nodes_file_iff,
}
use mini_sb_xboard_agent.TinyXboard.Persist.{
  holds, Faults, no_faults, Codec, trim_bom, promote, sync_dir, atomic_write_with_backup, exists,
  load_with_fallback,
}
use mini_sb_xboard_agent.TinyXboard.Persist.Load.{Decodes}
use mini_sb_xboard_agent.TinyXboard.Persist.Write.{write_fails}
use mini_sb_xboard_agent.TinyXboard.Persist.Crash.{interrupted, crash_recovers}
use mini_sb_xboard_agent.TinyXboard.Reality.{serves_vless, ensure_reality_keypair}
use mini_sb_xboard_agent.TinyXboard.Reality.Laws.{HasPair, ensure-HasPair}
use mini_sb_xboard_agent.TinyXboard.Store.State.{Env, World, empty_store}
use mini_sb_xboard_agent.TinyXboard.Store.Save.{
  save_node, save_users, flush_traffic_if_dirty, traffic_document,
}
use mini_sb_xboard_agent.TinyXboard.Store.LoadNode.{load_node}
use mini_sb_xboard_agent.TinyXboard.Store.LoadUsers.{load_users}
use mini_sb_xboard_agent.TinyXboard.Store.LoadTraffic.{load_traffic, new_store}
use mini_sb_xboard_agent.TinyXboard.Store.Users.{add_user, accumulate, counters_of, enabled_users}
use mini_sb_xboard_agent.TinyXboard.Store.Users.Invariant.{IsValid}
use mini_sb_xboard_agent.TinyXboard.Store.Users.Steps.{
  Reachable, starts, steps, adds, Reachable-IsValid,
}
use mini_sb_xboard_agent.TinyXboard.Store.Users.Counters.{accumulate_overflows}
use mini_sb_xboard_agent.TinyXboard.Store.Users.Enabled.{IsFound, enabled_users_lem}
use mini_sb_xboard_agent.TinyXboard.Store.Recovery.{crashed, crash_drops_users}
use mini_sb_xboard_agent.TinyXboard.Store.Durable.{IsCounter, flush_then_load}
use mini_sb_xboard_agent.TinyXboard.Auth.{authenticate}
use mini_sb_xboard_agent.TinyXboard.Auth.Laws.{Admits, authenticate_iff}
use mini_sb_xboard_agent.TinyXboard.Api.Handlers.{Entry, push_entries}
use mini_sb_xboard_agent.TinyXboard.Api.Config.{node_config_response}
use mini_sb_xboard_agent.TinyXboard.Api.Config.Laws.{both_config}
use mini_sb_xboard_agent.TinyXboard.Api.Push.{push_entries_lem}
use mini_sb_xboard_agent.TinyXboard.Fixtures.{
  alice, busy_store-IsValid, two_users, two_nodes, vless_node, hy2_node, busy_store, busy_traffic,
  fixed-Decodes, key, toy_crypto, toy_crypto-CryptoLaws, some_files, empty_disk, env, busy_world,
}

abbrev brace : List ℕ
brace = 123 ∷ 125 ∷ []

abbrev nobody : UsersFile
nobody = record { version = pos 1; users = [] }

-- Two bytes read as two users, all others as none.
abbrev by_length : Codec UsersFile
by_length = record {
  encode = λ _. brace;
  decode = λ b _. (if nat_beq (length b) 2 then two_users else nobody, true);
}

old_reads : Decodes by_length zero_users_file two_users brace
unfolding trim_bom
old_reads = record { small = ground arith; decoded = refl }

new_reads : Decodes by_length zero_users_file nobody (91 ∷ [])
unfolding trim_bom
new_reads = record { small = ground arith; decoded = refl }

crash_recovers_example :
    (used_bak : Bool) × ((load_with_fallback by_length
          (interrupted 4 0 (91 ∷ []) some_files)
          zero_users_file
        ≡ (two_users, ok used_bak))
      ⊎ (load_with_fallback by_length (interrupted 4 0 (91 ∷ []) some_files) zero_users_file
          ≡ (nobody, ok used_bak)))
crash_recovers_example =
    crash_recovers by_length some_files brace (91 ∷ []) refl old_reads new_reads 4 0

authenticate_iff_example :
    (authenticate busy_store (record { node_id = lit "2"; token = lit "n2"; node_type = lit "hy2" })
      ≡ ok hy2_node)
    ↔ ((id : ℤ) × Admits busy_store
          (record { node_id = lit "2"; token = lit "n2"; node_type = lit "hy2" })
          id
          hy2_node)
authenticate_iff_example =
    authenticate_iff busy_store
      (record { node_id = lit "2"; token = lit "n2"; node_type = lit "hy2" }) hy2_node

validate_users_file_iff_example : (validate_users_file two_users ≡ ok tt) ↔ IsUsersFile two_users
validate_users_file_iff_example = validate_users_file_iff two_users

validate_nodes_file_iff_example : (validate_nodes_file two_nodes ≡ ok tt) ↔ IsNodesFile two_nodes
validate_nodes_file_iff_example = validate_nodes_file_iff two_nodes

abbrev failing : Faults
failing = record no_faults { promote_fails = true }

write_fails_example :
    (promote ≢ sync_dir
      → (atomic_write_with_backup failing (1 ∷ []) some_files).0.main ≡ holds brace)
    × (promote ≡ sync_dir
        → (atomic_write_with_backup failing (1 ∷ []) some_files).0.main ≡ holds (1 ∷ []))
unfolding exists atomic_write_with_backup
write_fails_example = write_fails failing (1 ∷ []) some_files refl refl refl refl

abbrev push : List Entry
push =
    record { uid = pos 7; up = pos 10; down = pos 20 }
    ∷ record { uid = pos 9; up = pos 1; down = pos 1 }
    ∷ record { uid = pos 7; up = negsuc 0; down = pos 1 }
    ∷ []

push_entries_lem_example :
    (counters_of (pos 7) (push_entries 0 push busy_store).0.traffic
      ≡ record { upload = pos 15; download = pos 26 })
    × ((push_entries 0 push busy_store).1 ≡ 1)
    × ((push_entries 0 push busy_store).0.users ≡ busy_store.users)
unfolding contains lookup counters_of
push_entries_lem_example =
    push_entries_lem push busy_store (pos 7) 5 6 refl (omega arith) (omega arith)

accumulate_overflows_example :
    (counters_of (pos 7) (accumulate (pos 7) (pos max_int64) (pos 0) busy_store).0.traffic).upload
    <ℤ pos 0
unfolding contains lookup counters_of
accumulate_overflows_example =
    accumulate_overflows (pos 7) (pos max_int64) (pos 0) busy_store {a = 5} {b = max_int64} refl
      (ground arith) refl refl (omega arith) (omega arith) (omega arith)

ensure-HasPair_example :
    HasPair toy_crypto (record vless_node {
      tls = record vless_node.tls { private_key = key 1; public_key = key 2 };
    })
unfolding ensure_reality_keypair serves_vless normalize_node_type text_beq to_lower trim_space
ensure-HasPair_example =
    ensure-HasPair toy_crypto toy_crypto-CryptoLaws vless_node {changed = true} refl refl

busy_counters : AllEntries IsCounter busy_store.traffic
busy_counters = ground arith

flush_then_load_example :
    (load_traffic env
      (record (flush_traffic_if_dirty env busy_world) { store = empty_store })).store.traffic
    ≡ busy_store.traffic
unfolding lookup traffic_document put itoa
flush_then_load_example =
    flush_then_load env busy_world refl env {doc = busy_traffic} refl refl refl
      (fixed-Decodes zero_traffic_file busy_traffic) (refl, tt) busy_counters

-- Users are encoded in two bytes, no users in one.
abbrev sized : Codec UsersFile
sized = record by_length { encode = λ uf. if nat_beq (length uf.users) 0 then 91 ∷ [] else brace }

abbrev sized_env : Env
sized_env = record env { codecs = record env.codecs { users = sized } }

abbrev two_users_disk : Disk
two_users_disk = record empty_disk {
  users = record { main = holds brace; bak = absent; tmp = absent };
}

two_users_disk_loads :
    (load_node env (record { store = empty_store; disk = crashed 0 (91 ∷ []) two_users_disk })).1
    ≡ ok tt
unfolding load_node exists ensure_reality_keypair text_beq normalize_node_type to_lower trim_space
    entry_from_node_file default_node save_node atomic_write_with_backup interrupted
two_users_disk_loads = refl

crash_drops_users_example :
    let after = new_store env sized_env env (crashed 0 (91 ∷ []) two_users_disk) in
    (after.1 ≡ ok tt)
    × (after.0.store.users ≡ [])
    × (after.0.store.traffic ≡ [])
    × (after.0.disk.users.main ≡ holds (91 ∷ []))
    × (after.0.disk.users.bak ≡ holds brace)
crash_drops_users_example =
    crash_drops_users env sized_env env two_users_disk 0 brace (91 ∷ []) two_users_disk_loads refl
      refl

enabled_users_lem_example :
    IsSortedBy (λ u. u.id) (enabled_users busy_store)
    × ((u : User) → Mem u (enabled_users busy_store) ↔ IsFound u busy_store.users)
enabled_users_lem_example = enabled_users_lem busy_store busy_store-IsValid

new_world : World
new_world = (new_store env env env empty_disk).0

new_world-Reachable : Reachable new_world
unfolding new_world new_store load_node exists ensure_reality_keypair text_beq normalize_node_type
    to_lower trim_space entry_from_node_file default_node save_node atomic_write_with_backup
    load_users save_users
new_world-Reachable = starts env env env empty_disk refl

Reachable-IsValid_example : IsValid (add_user env alice new_world).0.store
Reachable-IsValid_example = Reachable-IsValid (steps new_world-Reachable (adds env alice))

dual_node : NodeEntry
dual_node = record vless_node { type = lit " Dual" }

both_config_example :
    (lookup (lit "protocol") (node_config_response dual_node) ≡ none)
    × (lookup (lit "server_port") (node_config_response dual_node) ≡ none)
    × (lookup (lit "data") (node_config_response dual_node) ≡ none)
unfolding dual_node normalize_node_type to_lower trim_space text_beq
both_config_example = both_config dual_node refl

hy2_node_valid : validate_node_entry hy2_node ≡ ok tt
unfolding validate_node_entry is_served_type normalize_node_type to_lower trim_space text_beq
hy2_node_valid = refl

hy2_not_both : normalize_node_type hy2_node.type ≢ both
unfolding normalize_node_type to_lower trim_space text_beq
hy2_not_both h = cc
