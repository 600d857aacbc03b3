-- ===== src/TinyXboard/Store/LoadNode/Keeps.antt =====
-- Loading the node configuration (tiny-xboard/store.go) leaves users and counters alone.
use mini_sb_xboard_agent.Base.{
  ◌≡◌, refl, Bool, true, false, ◌||◌, List, [], ◌∷◌, arith, Result, ok, err,
}
use mini_sb_xboard_agent.Base.Text.{Text}
use mini_sb_xboard_agent.TinyXboard.Schema.{
  NodeFile, NodesFile, NodeEntry, zero_node_file, zero_nodes_file, default_node,
  entry_from_node_file,
}
use mini_sb_xboard_agent.TinyXboard.Validate.{validate_node, validate_nodes_file}
use mini_sb_xboard_agent.TinyXboard.Store.State.{Env, World, Outcome, StoreError, on_ok}
use mini_sb_xboard_agent.TinyXboard.Store.Save.{save_node}
use mini_sb_xboard_agent.TinyXboard.Store.LoadNode.{
  load_document, entry_pair, ensure_all, install, create_node, install_node, install_nodes,
  load_single_node, load_nodes_file, load_node,
}

-- The users, the counters and users.json are those from before.
abbrev pub KeepsUsers : World → Outcome → Type 0
KeepsUsers w o =
    (o.0.store.users ≡ w.store.users)
    × (o.0.store.traffic ≡ w.store.traffic)
    × (o.0.disk.users ≡ w.disk.users)

on_ok_keeps {ℓ} :
    {A : Type ℓ} (w : World) (r : Result StoreError A) (f : A → Outcome)
    → ((a : A) → KeepsUsers w (f a))
    → KeepsUsers w (on_ok w r f)
on_ok_keeps w (err e) f k = (refl, refl, refl)
on_ok_keeps w (ok a) f k = k a

module _ (env : Env) where
  install_keeps :
      (multi : Bool) (nodes : List NodeEntry) (token : Text) (save : Bool) (w : World)
      → KeepsUsers w (install env multi nodes token save w)
  unfolding install save_node
  install_keeps true nodes token true w = (refl, refl, refl)
  install_keeps false nodes token true w = (refl, refl, refl)
  install_keeps multi nodes token false w = (refl, refl, refl)

  create_node_keeps : (w : World) → KeepsUsers w (create_node env w)
  unfolding create_node
  create_node_keeps w =
      on_ok_keeps w (entry_pair env.crypto (entry_from_node_file (default_node env.random_token)))
        (λ r. install env false (r.0 ∷ []) (default_node env.random_token).auth.token true w)
        (λ r. install_keeps false (r.0 ∷ []) (default_node env.random_token).auth.token true w)

  install_node_keeps : (r : NodeFile × Bool) (w : World) → KeepsUsers w (install_node env r w)
  unfolding install_node
  install_node_keeps (nf, b) w =
      on_ok_keeps w (entry_pair env.crypto (entry_from_node_file nf))
        (λ r. install env false (r.0 ∷ []) nf.auth.token (b || r.1) w)
        (λ r. install_keeps false (r.0 ∷ []) nf.auth.token (b || r.1) w)

  install_nodes_keeps : (r : NodesFile × Bool) (w : World) → KeepsUsers w (install_nodes env r w)
  unfolding install_nodes
  install_nodes_keeps (nf, b) w =
      on_ok_keeps w (ensure_all env.crypto nf.nodes)
        (λ r. install env true r.0 nf.token (b || r.1) w)
        (λ r. install_keeps true r.0 nf.token (b || r.1) w)

  load_single_node_keeps : (w : World) → KeepsUsers w (load_single_node env w)
  unfolding load_single_node
  load_single_node_keeps w = ground (
    arith,
    create_node_keeps w,
    on_ok_keeps w (load_document validate_node zero_node_file env.codecs.node w.disk.node)
        (λ r. install_node env r w) (λ r. install_node_keeps r w),
  )

  load_nodes_file_keeps : (w : World) → KeepsUsers w (load_nodes_file env w)
  unfolding load_nodes_file
  load_nodes_file_keeps w =
      on_ok_keeps w
        (load_document validate_nodes_file zero_nodes_file env.codecs.nodes w.disk.nodes)
        (λ r. install_nodes env r w) (λ r. install_nodes_keeps r w)

  pub load_node_keeps : (w : World) → KeepsUsers w (load_node env w)
  unfolding load_node
  load_node_keeps w = ground (arith, load_single_node_keeps w, load_nodes_file_keeps w)
