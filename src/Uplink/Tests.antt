-- ===== src/Uplink/Tests.antt =====
-- The theorem on the way of the traffic at concrete inputs.
use mini_sb_xboard_agent.Base.{
  ◌≡◌, refl, ap, true, none, some, [], ◌∷◌, arith, ok, ◌==◌, Bool-cases, inl, inr,
}
use mini_sb_xboard_agent.Base.Int.{ℤ, pos, IsInt64, add64, int_eq, int_beq_iff}
use mini_sb_xboard_agent.Base.Text.{
  Text, text_eq, text_beq, text_beq_iff, lit, is_digit, itoa, itoa_injective, to_lower, trim_space,
  atoi,
}
use mini_sb_xboard_agent.Base.Map.{Map, lookup, contains, put}
use mini_sb_xboard_agent.PanelApi.Client.{
  Amounts, Delta, Client, matches_inbound, is_numeric_user, push_request, flatten_matching,
  flatten_users, add_amounts, payload_of,
}
use mini_sb_xboard_agent.TinyXboard.Store.State.{World}
use mini_sb_xboard_agent.TinyXboard.Store.Users.{counters_of}
use mini_sb_xboard_agent.TinyXboard.Store.LoadUsers.{refresh_users}
use mini_sb_xboard_agent.TinyXboard.NodeType.{match_node_type, normalize_node_type}
use mini_sb_xboard_agent.TinyXboard.Store.Nodes.{node_snapshot, valid_token, lookup_node, find_node}
use mini_sb_xboard_agent.TinyXboard.Persist.{exists}
use mini_sb_xboard_agent.TinyXboard.Auth.{authenticate}
use mini_sb_xboard_agent.TinyXboard.Api.Handlers.{RawMessage, Request, fields, handle_push}
use mini_sb_xboard_agent.TinyXboard.Api.Compact.{pair_at}
use mini_sb_xboard_agent.TinyXboard.Fixtures.{busy_world, empty_disk, env, hy2_node}
use mini_sb_xboard_agent.Uplink.{IsEncoded, push_reaches}

abbrev delta : Delta
delta =
    (lit "hy2-in", (lit "7", (pos 10, pos 20)) ∷ (lit "bob", (pos 1, pos 1)) ∷ [])
    ∷ (lit "vless-in", (lit "7", (pos 100, pos 200)) ∷ [])
    ∷ []

abbrev client : Client
client = record {
  base_url = lit "http://panel";
  token = lit "n2";
  node_id = lit "2";
  node_type = lit "hysteria2";
}

abbrev payload : Map ℤ Amounts
payload = (pos 7, (pos 10, pos 20)) ∷ []

abbrev raw : Map Text RawMessage
raw = (lit "7", record { as_entries = none; as_pair = some (pos 10, pos 20) }) ∷ []

seven : (id : ℤ) → IsInt64 id → (lit "7" == itoa id) ≡ (pos 7 == id)
unfolding itoa
seven id h = elim (Bool-cases (pos 7 == id)) [
  | inl same ↦
      let e : pos 7 ≡ id = ground (arith, int_beq_iff (pos 7) id) in
      rw same (ground (arith, text_beq_iff (lit "7") (itoa id), ap itoa e))
  | inr other ↦ rw other (
      ground (
        arith,
        text_beq_iff (lit "7") (itoa id),
        int_beq_iff (pos 7) id,
        itoa_injective (pos 7) id (omega arith) h,
      ))
]

raw-pairs : (id : ℤ) → IsInt64 id → pair_at (itoa id) raw ≡ lookup id payload
unfolding lookup
raw-pairs id h = ground (arith, seven id h)

raw-IsEncoded : IsEncoded payload raw
unfolding lookup itoa
raw-IsEncoded = record {
  one_each = (refl, tt);
  numerals = ((pos 7, omega arith, refl), tt);
  pairs = raw-pairs;
}

payload_sent : push_request client delta ≡ some payload
unfolding push_request flatten_matching flatten_users add_amounts payload_of matches_inbound
    text_beq to_lower is_numeric_user is_digit put atoi add64 lookup
payload_sent = refl

abbrev request : Request
request = record {
  method = lit "POST";
  credentials = record { node_id = lit "2"; token = lit "n2"; node_type = lit "hy2" };
  slot_free = true;
  body = fields raw;
}

abbrev quiet_world : World
quiet_world = record busy_world { disk = empty_disk }

allowed : authenticate quiet_world.store request.credentials ≡ ok hy2_node
unfolding authenticate atoi node_snapshot valid_token text_beq match_node_type normalize_node_type
    to_lower trim_space lookup_node find_node
allowed = refl

push_reaches_example :
    counters_of (pos 7) (handle_push env request quiet_world).0.store.traffic
    ≡ record { upload = pos 15; download = pos 26 }
unfolding is_numeric_user itoa is_digit matches_inbound text_beq to_lower contains refresh_users
    exists counters_of lookup
push_reaches_example =
    push_reaches client delta payload raw (pos 7) payload_sent raw-IsEncoded (omega arith) refl
      (
        (((omega arith, omega arith), ((omega arith, omega arith), tt))),
        (((omega arith, omega arith), tt), tt),
      )
      (
        ((λ _. (pos 7, omega arith, refl)), ((λ h. absurd (ground arith)), tt)),
        (((λ _. (pos 7, omega arith, refl)), tt), tt),
      )
      env request quiet_world hy2_node 5 6 refl allowed refl refl refl refl (omega arith)
      (omega arith)
