-- ===== src/TinyXboard/Validate.antt =====
-- The checks on the documents (tiny-xboard/store.go, the part on validation).
pub mod Laws
use mini_sb_xboard_agent.Base.{
  ℕ, Bool, true, false, not, ◌&&◌, ◌||◌, List, [], ◌∷◌, ltb, ◌==◌, length, if◌then◌else◌, Result,
  ok, err, ◌>>=◌, ◌>>◌, fail_if,
}
use mini_sb_xboard_agent.Base.Int.{ℤ, pos, leb_ℤ, ltb_ℤ, int_eq}
use mini_sb_xboard_agent.Base.Text.{is_empty}
use mini_sb_xboard_agent.Base.Map.{Map, contains, put}
use mini_sb_xboard_agent.TinyXboard.Schema.{
  NodeFile, NodeEntry, NodesFile, User, UsersFile, TrafficFile, known_version, max_users,
}
use mini_sb_xboard_agent.TinyXboard.NodeType.{is_served_type}

pub data Invalid : Type 0 where
  unsupported_version id_not_positive bad_node_type empty_token bad_port no_nodes : Invalid
  duplicate_id too_many_users no_secret negative_speed_limit : Invalid

-- `v != 0 && v > KnownVersion`
abbrev pub is_newer : ℤ → Bool
is_newer v = not (v == pos 0) && ltb_ℤ known_version v

abbrev pub bad_port_number : ℤ → Bool
bad_port_number p = ltb_ℤ p (pos 1) || ltb_ℤ (pos 65535) p

unfoldable pub validate_node : NodeFile → Result Invalid (Unit {0})
validate_node nf = do
  fail_if (is_newer nf.version) unsupported_version
  fail_if (leb_ℤ nf.node.id (pos 0)) id_not_positive
  fail_if (not (is_served_type nf.node.type)) bad_node_type
  fail_if (is_empty nf.auth.token) empty_token
  fail_if (bad_port_number nf.server.port) bad_port

unfoldable pub validate_node_entry : NodeEntry → Result Invalid (Unit {0})
validate_node_entry n = do
  fail_if (leb_ℤ n.id (pos 0)) id_not_positive
  fail_if (not (is_served_type n.type)) bad_node_type
  fail_if (bad_port_number n.server.port) bad_port

-- The loop of `validateNodesFile` and of `validateUsersFile`: each item is checked, and its id is
-- looked up in the set of the ids seen so far.
unfoldable pub check_all :
    {A : Type 0}
    → (A → Result Invalid (Unit {0}))
    → (A → ℤ)
    → Map ℤ Unit
    → List A
    → Result Invalid (Unit {0})
check_all check key seen [] = ok tt
check_all check key seen (x ∷ xs) = do
  check x
  fail_if (contains (key x) seen) duplicate_id
  check_all check key (put (key x) tt seen) xs

unfoldable pub validate_nodes_file : NodesFile → Result Invalid (Unit {0})
unfolding check_all validate_node_entry
validate_nodes_file nf = do
  fail_if (is_newer nf.version) unsupported_version
  fail_if (is_empty nf.token) empty_token
  fail_if (ltb (length nf.nodes) 1) no_nodes
  check_all validate_node_entry (λ n. n.id) [] nf.nodes

unfoldable pub validate_user : User → Result Invalid (Unit {0})
validate_user u = do
  fail_if (leb_ℤ u.id (pos 0)) id_not_positive
  fail_if (is_empty u.uuid && is_empty u.password) no_secret
  fail_if (ltb_ℤ u.speed_limit (pos 0)) negative_speed_limit

unfoldable pub validate_users_file : UsersFile → Result Invalid (Unit {0})
unfolding check_all validate_user
validate_users_file uf = do
  fail_if (is_newer uf.version) unsupported_version
  fail_if (ltb max_users (length uf.users)) too_many_users
  check_all validate_user (λ u. u.id) [] uf.users

unfoldable pub validate_traffic_file : TrafficFile → Result Invalid (Unit {0})
validate_traffic_file tf = fail_if (is_newer tf.version) unsupported_version
