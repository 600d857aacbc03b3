-- ===== src/TinyXboard/Auth.antt =====
-- tiny-xboard/auth.go: the credentials of a UniProxy request.
pub mod Laws
use mini_sb_xboard_agent.Base.{
  Bool, true, false, not, ◌||◌, Option, none, some, if◌then◌else◌, Result, ok, err,
}
use mini_sb_xboard_agent.Base.Int.{ℤ, pos, leb_ℤ}
use mini_sb_xboard_agent.Base.Text.{Text, atoi}
use mini_sb_xboard_agent.TinyXboard.Schema.{NodeEntry}
use mini_sb_xboard_agent.TinyXboard.NodeType.{match_node_type}
use mini_sb_xboard_agent.TinyXboard.Store.State.{Store}
use mini_sb_xboard_agent.TinyXboard.Store.Nodes.{
  NodeSnapshot, node_snapshot, valid_token, lookup_node,
}

-- The query parameters; a missing one is empty.
pub record Credentials : Type 0 where
  pub node_id : Text
  pub token : Text
  pub node_type : Text

-- Status 404 and status 401.
pub data Denied : Type 0 where
  server_does_not_exist invalid_token : Denied

-- `entry, _ := lookupNode(id)`: the zero entry never shows, since the snapshot found the node.
found_entry : Option NodeEntry → Result Denied NodeEntry
found_entry none = err server_does_not_exist
found_entry (some e) = ok e

check_node : Store → Credentials → ℤ → Result Denied NodeEntry
unfolding found_entry
check_node s c id =
    let snap = node_snapshot s id in
    if leb_ℤ id (pos 0)
    then err server_does_not_exist
    else if not snap.found || not snap.enabled
    then err server_does_not_exist
    else if not (valid_token s c.token id)
    then err invalid_token
    else if not (match_node_type snap.type c.node_type)
    then err server_does_not_exist
    else found_entry (lookup_node s id)

unfoldable pub authenticate : Store → Credentials → Result Denied NodeEntry
unfolding check_node
authenticate s c = elim (atoi c.node_id) [
  | none ↦ err server_does_not_exist
  | some id ↦ check_node s c id
]
