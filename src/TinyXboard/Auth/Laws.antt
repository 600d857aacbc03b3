-- ===== src/TinyXboard/Auth/Laws.antt =====
-- Who passes `authenticate` (tiny-xboard/auth.go), and with which token.
use mini_sb_xboard_agent.Base.{
  ◌≡◌, refl, ◌↔◌, true, false, none, some, List, [], ◌∷◌, arith, if◌then◌else◌, ok, Option-cases,
  inl, inr,
}
use mini_sb_xboard_agent.Base.Int.{ℤ, pos, ◌≤ℤ◌}
use mini_sb_xboard_agent.Base.Text.{Text, atoi, is_empty, text_beq, text_beq_iff}
use mini_sb_xboard_agent.TinyXboard.Schema.{NodeEntry}
use mini_sb_xboard_agent.TinyXboard.NodeType.{match_node_type}
use mini_sb_xboard_agent.TinyXboard.Store.State.{Store}
use mini_sb_xboard_agent.TinyXboard.Store.Nodes.{
  find_node, lookup_node, snapshot_in, node_snapshot, token_matches, valid_token,
}
use mini_sb_xboard_agent.TinyXboard.Auth.{Credentials, authenticate}

-- The token that a node is reached with: its own, or else that of the panel.
abbrev pub token_of : Store → NodeEntry → Text
token_of s e = if is_empty e.token then s.panel_token else e.token

-- The three walks over the node list stop at the same node.
snapshot-miss :
    (id : ℤ) (es : List NodeEntry) → find_node id es ≡ none → (snapshot_in id es).found ≡ false
unfolding find_node snapshot_in
snapshot-miss id [] h = refl
snapshot-miss id (e ∷ es) h = ground (arith, snapshot-miss id es)

snapshot-hit :
    (id : ℤ) (es : List NodeEntry) (e : NodeEntry)
    → find_node id es ≡ some e
    → snapshot_in id es ≡ record { found = true; enabled = e.enabled; type = e.type }
unfolding find_node snapshot_in
snapshot-hit id [] e h = absurd (ground arith)
snapshot-hit id (x ∷ es) e h = ground (arith, snapshot-hit id es e)

token-hit :
    (s : Store) (token : Text) (id : ℤ) (es : List NodeEntry) (e : NodeEntry)
    → find_node id es ≡ some e
    → token_matches token s.panel_token id es ≡ text_beq token (token_of s e)
unfolding find_node token_matches
token-hit s token id [] e h = absurd (ground arith)
token-hit s token id (x ∷ es) e h = ground (arith, token-hit s token id es e)

-- What the credentials must be for the node with the id.
pub record Admits (s : Store) (c : Credentials) (id : ℤ) (e : NodeEntry) : Type 0 where
  pub id_read : atoi c.node_id ≡ some id
  pub id_positive : pos 1 ≤ℤ id
  pub node_found : find_node id s.node_list ≡ some e
  pub node_enabled : e.enabled ≡ true
  pub token_given : is_empty c.token ≡ false
  pub token_right : c.token ≡ token_of s e
  pub type_served : match_node_type e.type c.node_type ≡ true

module _ (s : Store) (c : Credentials) (e : NodeEntry) where
  admitted : (id : ℤ) → Admits s c id e → authenticate s c ≡ ok e
  unfolding authenticate node_snapshot lookup_node valid_token
  admitted id a = ground (
    arith,
    snapshot-hit id s.node_list e a.node_found,
    token-hit s c.token id s.node_list e a.node_found,
    text_beq_iff c.token (token_of s e),
  )

  admits : authenticate s c ≡ ok e → (id : ℤ) × Admits s c id e
  unfolding authenticate node_snapshot lookup_node valid_token
  admits h = elim (Option-cases (atoi c.node_id)) [
    | inl bad ↦ absurd (ground arith)
    | inr (id, good) ↦ elim (Option-cases (find_node id s.node_list)) [
      | inl absent ↦ absurd (ground (arith, snapshot-miss id s.node_list))
      | inr (x, found) ↦
          let same : x ≡ e = ground arith in
          (
            id,
            rw (← same) (
                ground (
                  arith,
                  snapshot-hit id s.node_list x found,
                  token-hit s c.token id s.node_list x found,
                  text_beq_iff c.token (token_of s x),
                )),
          )
    ]
  ]

  -- A request is let through to a node exactly when Atoi reads its node_id as a positive id, the first
  -- node with that id is this one and enabled, the token is not empty and is the
  -- node's own token, or the panel's if the node has none, and the node serves the type.
  pub authenticate_iff : (authenticate s c ≡ ok e) ↔ ((id : ℤ) × Admits s c id e)
  authenticate_iff = (admits, λ p. admitted p.0 p.1)
