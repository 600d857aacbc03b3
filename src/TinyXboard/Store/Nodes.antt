-- ===== src/TinyXboard/Store/Nodes.antt =====
-- The node helpers of tiny-xboard/store.go: `NodeInfo`, `AuthToken`, `NormalizedNodeType`,
-- `lookupNode`, `nodeSnapshot`, `validToken`.
use mini_sb_xboard_agent.Base.{
  Bool, true, false, Option, none, some, List, [], ◌∷◌, ◌==◌, if◌then◌else◌,
}
use mini_sb_xboard_agent.Base.Int.{ℤ, pos, int_eq}
use mini_sb_xboard_agent.Base.Text.{Text, text_eq, is_empty}
use mini_sb_xboard_agent.TinyXboard.Schema.{NodeInfo, NodeEntry}
use mini_sb_xboard_agent.TinyXboard.NodeType.{normalize_node_type}
use mini_sb_xboard_agent.TinyXboard.Store.State.{Store}

first_node_info : List NodeEntry → NodeInfo
first_node_info [] = record { id = pos 0; name = []; type = []; enabled = false }
first_node_info (e ∷ es) = record { id = e.id; name = e.name; type = e.type; enabled = e.enabled }

unfoldable pub node_info : Store → NodeInfo
unfolding first_node_info
node_info s = first_node_info s.node_list

unfoldable pub auth_token : Store → Text
auth_token s = s.panel_token

first_node_type : List NodeEntry → Text
first_node_type [] = []
first_node_type (e ∷ es) = normalize_node_type e.type

unfoldable pub normalized_node_type : Store → Text
unfolding first_node_type
normalized_node_type s = first_node_type s.node_list

-- The first node with the id; `none` stands for the zero entry with `false`.
unfoldable pub find_node : ℤ → List NodeEntry → Option NodeEntry
find_node id [] = none
find_node id (e ∷ es) = if e.id == id then some e else find_node id es

unfoldable pub lookup_node : Store → ℤ → Option NodeEntry
lookup_node s id = find_node id s.node_list

pub record NodeSnapshot : Type 0 where
  pub found : Bool
  pub enabled : Bool
  pub type : Text

unfoldable pub snapshot_in : ℤ → List NodeEntry → NodeSnapshot
snapshot_in id [] = record { found = false; enabled = false; type = [] }
snapshot_in id (e ∷ es) =
    if e.id == id
    then record { found = true; enabled = e.enabled; type = e.type }
    else snapshot_in id es

unfoldable pub node_snapshot : Store → ℤ → NodeSnapshot
unfolding snapshot_in
node_snapshot s id = snapshot_in id s.node_list

-- The loop of `validToken`: a token of the node itself goes before the token of the panel.
unfoldable pub token_matches : Text → Text → ℤ → List NodeEntry → Bool
token_matches token panel_token id [] = false
token_matches token panel_token id (e ∷ es) =
    if e.id == id
    then (if is_empty e.token then token == panel_token else token == e.token)
    else token_matches token panel_token id es

unfoldable pub valid_token : Store → Text → ℤ → Bool
unfolding token_matches
valid_token s token id =
    if is_empty token then false else token_matches token s.panel_token id s.node_list
