-- ===== src/Downlink/Tests.antt =====
-- The theorem on the way of the users at a concrete input.
use mini_sb_xboard_agent.Base.{◌≡◌, refl, true, none, some, [], ◌∷◌, map, All, ok, select}
use mini_sb_xboard_agent.Base.Sort.{sort_by}
use mini_sb_xboard_agent.Base.Text.{Text, lit, text_beq, to_lower, trim_space, atoi}
use mini_sb_xboard_agent.PanelApi.Client.{Client}
use mini_sb_xboard_agent.PanelApi.Fetch.{Http, Reply, get_endpoint, endpoint, fetch_panel_users}
use mini_sb_xboard_agent.PanelApi.NodeConfig.{NodeConfig, node_config_of}
use mini_sb_xboard_agent.TinyXboard.Store.State.{World}
use mini_sb_xboard_agent.TinyXboard.Store.LoadUsers.{refresh_users}
use mini_sb_xboard_agent.TinyXboard.Store.Users.{enabled_users}
use mini_sb_xboard_agent.TinyXboard.Store.Nodes.{node_snapshot, valid_token, lookup_node, find_node}
use mini_sb_xboard_agent.TinyXboard.NodeType.{match_node_type, normalize_node_type}
use mini_sb_xboard_agent.TinyXboard.Persist.{exists}
use mini_sb_xboard_agent.TinyXboard.Auth.{authenticate}
use mini_sb_xboard_agent.TinyXboard.Api.Handlers.{Request, malformed, users, handle_user}
use mini_sb_xboard_agent.TinyXboard.Fixtures.{
  alice, busy_world, busy_store-IsValid, empty_disk, env,
}
use mini_sb_xboard_agent.Downlink.{read_user, served, IsUsable, fetched_users}

abbrev quiet_world : World
quiet_world = record busy_world { disk = empty_disk }

abbrev request : Request
request = record {
  method = lit "GET";
  credentials = record { node_id = lit "2"; token = lit "n2"; node_type = lit "hy2" };
  slot_free = true;
  body = malformed;
}

abbrev reply : Reply Text
reply = record {
  status = 200;
  as_users = some (record { users = map read_user (alice ∷ []); data_users = [] });
  as_raw = none;
  message = [];
  error_text = [];
}

abbrev no_config : NodeConfig
no_config = node_config_of []

abbrev http : Http Text Text
http = record {
  address = λ path params. ok path;
  get = λ address. ok reply;
  unmarshal = λ raw. ok no_config;
  unmarshal_data = λ raw. ok no_config;
}

abbrev client : Client
client = record {
  base_url = lit "http://panel";
  token = lit "n2";
  node_id = lit "2";
  node_type = lit "hy2";
}

answered : (handle_user env request quiet_world).1 ≡ users (alice ∷ [])
unfolding handle_user authenticate atoi node_snapshot valid_token text_beq match_node_type
    normalize_node_type to_lower trim_space lookup_node find_node refresh_users exists enabled_users
    sort_by select
answered = refl

carried : get_endpoint http client (lit "/api/v1/server/UniProxy/user") ≡ ok reply
unfolding get_endpoint endpoint
carried = refl

fetched_users_example :
    let store = (refresh_users env quiet_world).0.store in
    (fetch_panel_users http client ≡ ok (map served (enabled_users store)))
    × All IsUsable (map served (enabled_users store))
fetched_users_example =
    fetched_users http client reply env request quiet_world (alice ∷ []) answered carried refl refl
      busy_store-IsValid
