-- ===== src/TinyXboard/Store/LoadNode.antt =====
-- Loading the node configuration (tiny-xboard/store.go): `loadNode`, `loadSingleNode`,
-- `loadNodesFile`.
pub mod Keeps
use mini_sb_xboard_agent.Base.{
  Bool, true, false, not, ◌||◌, List, [], ◌∷◌, if◌then◌else◌, Result, ok, err, ◌>>=◌,
}
use mini_sb_xboard_agent.Base.Text.{Text}
use mini_sb_xboard_agent.TinyXboard.Schema.{
  NodeFile, NodesFile, NodeEntry, zero_node_file, zero_nodes_file, default_node,
  entry_from_node_file,
}
use mini_sb_xboard_agent.TinyXboard.Validate.{Invalid, validate_node, validate_nodes_file}
use mini_sb_xboard_agent.TinyXboard.Persist.{
  File, Files, LoadError, Codec, load_file, load_with_fallback, exists,
}
use mini_sb_xboard_agent.TinyXboard.Reality.{Crypto, RealityError, ensure_reality_keypair}
use mini_sb_xboard_agent.TinyXboard.Store.State.{
  Store, Disk, Env, World, Outcome, StoreError, invalid, load_failed, reality, node_backup_unusable,
  node_backup_invalid, on_ok,
}
use mini_sb_xboard_agent.TinyXboard.Store.Save.{save_node}

-- A document of either kind: it is loaded, validated, and read again from the backup if it decodes
-- but is refused.
module _ {A : Type 0} (validate : A → Result Invalid (Unit {0})) (zero : A) where
  from_backup : Invalid → A × Result LoadError (Unit {0}) → Result StoreError (A × Bool)
  from_backup why (v, err e) = err (node_backup_unusable why)
  from_backup why (v, ok _) = elim (validate v) [
    | err _ ↦ err (node_backup_invalid why)
    | ok _ ↦ ok (v, true)
  ]

  from_document : Codec A → Files → A × Result LoadError Bool → Result StoreError (A × Bool)
  unfolding from_backup
  from_document codec fs (v, err e) = err (load_failed e)
  from_document codec fs (v, ok used_bak) = elim (validate v) [
    | err why ↦ from_backup why (load_file codec fs.bak zero)
    | ok _ ↦ ok (v, used_bak)
  ]

  unfoldable pub load_document : Codec A → Files → Result StoreError (A × Bool)
  unfolding from_document
  load_document codec fs = from_document codec fs (load_with_fallback codec fs zero)

module _ (c : Crypto) where
  entry_pair : NodeEntry → Result StoreError (NodeEntry × Bool)
  entry_pair e = elim (ensure_reality_keypair c e) [ err x ↦ err (reality x) | ok r ↦ ok r ]

  -- The loop of `loadNodesFile` over the nodes: the nodes with their key pairs, and whether any
  -- changed.
  unfoldable pub ensure_all : List NodeEntry → Result StoreError (List NodeEntry × Bool)
  unfolding entry_pair
  ensure_all [] = ok ([], false)
  ensure_all (e ∷ es) = do
    (e', changed) ← entry_pair e
    (es', changed') ← ensure_all es
    ok (e' ∷ es', changed || changed')

module _ (env : Env) where
  -- The nodes go into the store, and to disk if they came from the backup or changed.
  install : Bool → List NodeEntry → Text → Bool → World → Outcome
  install multi nodes token save w =
      let w' : World = record w {
        store = record w.store { node_list = nodes; panel_token = token; nodes_multi = multi };
      } in
      if save then save_node env w' else (w', ok tt)

  create_node : World → Outcome
  unfolding entry_pair install
  create_node w =
      let nf = default_node env.random_token in
      on_ok w (entry_pair env.crypto (entry_from_node_file nf))
        (λ r. install false (r.0 ∷ []) nf.auth.token true w)

  install_node : NodeFile × Bool → World → Outcome
  unfolding entry_pair install
  install_node (nf, used_bak) w =
      on_ok w (entry_pair env.crypto (entry_from_node_file nf))
        (λ r. install false (r.0 ∷ []) nf.auth.token (used_bak || r.1) w)

  unfoldable pub load_single_node : World → Outcome
  unfolding create_node install_node
  load_single_node w =
      if not (exists w.disk.node.main)
      then create_node w
      else on_ok w (load_document validate_node zero_node_file env.codecs.node w.disk.node)
          (λ r. install_node r w)

  install_nodes : NodesFile × Bool → World → Outcome
  unfolding install
  install_nodes (nf, used_bak) w =
      on_ok w (ensure_all env.crypto nf.nodes) (λ r. install true r.0 nf.token (used_bak || r.1) w)

  unfoldable pub load_nodes_file : World → Outcome
  unfolding install_nodes
  load_nodes_file w =
      on_ok w (load_document validate_nodes_file zero_nodes_file env.codecs.nodes w.disk.nodes)
        (λ r. install_nodes r w)

  -- `loadNode`: nodes.json, if it is there, goes before node.json.
  unfoldable pub load_node : World → Outcome
  unfolding load_single_node load_nodes_file
  load_node w = if exists w.disk.nodes.main then load_nodes_file w else load_single_node w
