-- ===== src/TinyXboard/Store/Save.antt =====
-- The saving part of tiny-xboard/store.go: `SaveNode`, `SaveUsers`, `SaveTraffic` and
-- `flushTrafficIfDirty`.
use mini_sb_xboard_agent.Base.{true, false, List, [], ◌∷◌, map, if◌then◌else◌, Result, ok, err}
use mini_sb_xboard_agent.Base.Int.{ℤ, ltb_ℤ, pos, int_eq}
use mini_sb_xboard_agent.Base.Text.{Text, itoa, text_eq}
use mini_sb_xboard_agent.Base.Map.{Map, put}
use mini_sb_xboard_agent.Base.Sort.{sort_by}
use mini_sb_xboard_agent.TinyXboard.Schema.{
  NodeFile, NodesFile, NodeEntry, User, UsersFile, Traffic, TrafficFile, known_version,
  zero_node_file, node_file_from_entry, default_traffic_flush_interval,
}
use mini_sb_xboard_agent.TinyXboard.Persist.{WriteError, atomic_write_with_backup}
use mini_sb_xboard_agent.TinyXboard.Store.State.{Env, World, Outcome, StoreError, write_failed}

-- The result of a write, as an error of the store.
abbrev pub lift_write : Result WriteError (Unit {0}) → Result StoreError (Unit {0})
lift_write (ok u) = ok u
lift_write (err e) = err (write_failed e)

-- The document that `SaveNode` writes in single-node mode.
unfoldable pub node_document : List NodeEntry → Text → NodeFile
unfolding node_file_from_entry
node_document [] token = record zero_node_file { version = known_version }
node_document (e ∷ es) token = node_file_from_entry e token

unfoldable pub nodes_document : List NodeEntry → Text → NodesFile
nodes_document es token = record { version = known_version; token = token; nodes = es }

unfoldable pub users_document : Map ℤ User → UsersFile
users_document users = record {
  version = known_version;
  users = sort_by (λ u. u.id) (map (λ e. e.1) users);
}

-- The loop of `SaveTraffic` over the counters.
unfoldable pub traffic_entries : Map Text Traffic → Map ℤ Traffic → Map Text Traffic
traffic_entries out [] = out
traffic_entries out ((id, t) ∷ m) = traffic_entries (put (itoa id) t out) m

unfoldable pub traffic_document : ℤ → Map ℤ Traffic → TrafficFile
unfolding traffic_entries
traffic_document now traffic = record {
  version = known_version;
  updated_at = now;
  users = traffic_entries [] traffic;
}

module _ (env : Env) where
  save_nodes_file : World → Outcome
  save_nodes_file w =
      let (fs, r) =
        atomic_write_with_backup env.faults
          (env.codecs.nodes.encode (nodes_document w.store.node_list w.store.panel_token))
          w.disk.nodes in
      (record w { disk = record w.disk { nodes = fs } }, lift_write r)

  save_node_file : World → Outcome
  save_node_file w =
      let (fs, r) =
        atomic_write_with_backup env.faults
          (env.codecs.node.encode (node_document w.store.node_list w.store.panel_token))
          w.disk.node in
      (record w { disk = record w.disk { node = fs } }, lift_write r)

  unfoldable pub save_node : World → Outcome
  unfolding save_nodes_file save_node_file
  save_node w = if w.store.nodes_multi then save_nodes_file w else save_node_file w

  unfoldable pub save_users : World → Outcome
  save_users w =
      let (fs, r) =
        atomic_write_with_backup env.faults (env.codecs.users.encode (users_document w.store.users))
          w.disk.users in
      (record w { disk = record w.disk { users = fs } }, lift_write r)

  unfoldable pub save_traffic : World → Outcome
  save_traffic w =
      let (fs, r) =
        atomic_write_with_backup env.faults
          (env.codecs.traffic.encode (traffic_document env.unix_time w.store.traffic))
          w.disk.traffic in
      (record w { disk = record w.disk { traffic = fs } }, lift_write r)

  -- A failed write sets the flag again.
  after_flush : Outcome → World
  after_flush (w, ok _) = w
  after_flush (w, err _) = record w { store = record w.store { dirty = true } }

  -- `flushTrafficIfDirty`
  unfoldable pub flush_traffic_if_dirty : World → World
  unfolding save_traffic after_flush
  flush_traffic_if_dirty w =
      if w.store.dirty
      then after_flush (save_traffic (record w { store = record w.store { dirty = false } }))
      else w

-- `RuntimeFlushInterval`: the first positive interval of a node, or the default.
unfoldable pub runtime_flush_interval : List NodeEntry → ℤ
runtime_flush_interval [] = default_traffic_flush_interval
runtime_flush_interval (e ∷ es) =
    if ltb_ℤ (pos 0) e.runtime.traffic_flush_interval
    then e.runtime.traffic_flush_interval
    else runtime_flush_interval es
