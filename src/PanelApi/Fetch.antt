-- ===== src/PanelApi/Fetch.antt =====
-- The two requests of the client that read: `FetchUsers` (panelapi/client.go) and `FetchNodeConfig`
-- (panelapi/node_config.go), with the address that they are made for. What `url.Parse` and the encoding
-- of a query make of an address, the HTTP exchange and the JSON decoder are given.
use mini_sb_xboard_agent.Base.{
  ℕ, ◌/◌, Bool, not, Option, none, some, List, [], ◌∷◌, ◌++◌, nat_beq, if◌then◌else◌, Result, ok,
  err,
}
use mini_sb_xboard_agent.Base.Text.{Text, lit, is_empty, trim_space}
use mini_sb_xboard_agent.PanelApi.{User}
use mini_sb_xboard_agent.PanelApi.Client.{Client, UserList, complete_users}
use mini_sb_xboard_agent.PanelApi.NodeConfig.{NodeConfig, DecodeError, decode_node_config}

cons_untrimmed : (ℕ → Bool) → ℕ → Text → Text
cons_untrimmed p c [] = if p c then [] else c ∷ []
cons_untrimmed p c (d ∷ s) = c ∷ d ∷ s

-- `strings.TrimRight` for one character.
unfoldable pub trim_right_char : ℕ → Text → Text
unfolding cons_untrimmed
trim_right_char d [] = []
trim_right_char d (c ∷ s) = cons_untrimmed (λ x. nat_beq x d) c (trim_right_char d s)

unfoldable pub new_client : Text → Text → Text → Text → Client
unfolding trim_right_char
new_client base_url token node_id node_type = record {
  base_url = trim_right_char b'/' base_url;
  token = token;
  node_id = node_id;
  node_type = node_type;
}

-- A parameter of the query, if it is not empty.
abbrev set_param : Text → Text → List (Text × Text) → List (Text × Text)
set_param key v rest = if is_empty v then rest else (key, v) ∷ rest

-- What `endpoint` sets in the query.
unfoldable pub query_of : Client → List (Text × Text)
query_of c =
    set_param (lit "token") c.token
      (set_param (lit "node_id") c.node_id (set_param (lit "node_type") c.node_type []))

-- An answer: its status, and what the decoder makes of the body as a list of users, as a raw document
-- and as the error object with its two texts.
pub record Reply (Raw : Type 0) : Type 0 where
  pub status : ℕ
  pub as_users : Option UserList
  pub as_raw : Option Raw
  pub message : Text
  pub error_text : Text

-- What is outside: the address with parameters, a GET of it, and `json.Unmarshal` of a raw document into
-- a configuration, itself or under the key `data`.
pub record Http (Raw E : Type 0) : Type 0 where
  pub address : Text → List (Text × Text) → Result E Text
  pub get : Text → Result E (Reply Raw)
  pub unmarshal : Raw → Result E NodeConfig
  pub unmarshal_data : Raw → Result E NodeConfig

pub data FetchError (E : Type 0) : Type 0 where
  no_base_url bad_body : FetchError E
  bad_address not_fetched : E → FetchError E
  bad_status : ℕ → Text → FetchError E
  bad_config : DecodeError E → FetchError E

module _ {Raw E : Type 0} (http : Http Raw E) where
  unfoldable pub endpoint : Client → Text → Result (FetchError E) Text
  unfolding query_of
  endpoint c path =
      if is_empty c.base_url
      then err no_base_url
      else elim (http.address (c.base_url ++ path) (query_of c)) [
        | err e ↦ err (bad_address e)
        | ok address ↦ ok address
      ]

  -- A GET of an address that `endpoint` makes.
  unfoldable pub get_endpoint : Client → Text → Result (FetchError E) (Reply Raw)
  unfolding endpoint
  get_endpoint c path = elim (endpoint c path) [
    | err e ↦ err e
    | ok address ↦ elim (http.get address) [ err e ↦ err (not_fetched e) | ok reply ↦ ok reply ]
  ]

  -- `resp.StatusCode/100 != 2`
  abbrev pub is_success : Reply Raw → Bool
  is_success reply = nat_beq (reply.status / 100) 2

  unfoldable pub users_of_reply : Reply Raw → Result (FetchError E) (List User)
  unfolding complete_users
  users_of_reply reply =
      if not (is_success reply)
      then err (bad_status reply.status [])
      else elim reply.as_users [ none ↦ err bad_body | some list ↦ ok (complete_users list) ]

  -- `FetchUsers`
  unfoldable pub fetch_panel_users : Client → Result (FetchError E) (List User)
  unfolding get_endpoint users_of_reply
  fetch_panel_users c = elim (get_endpoint c (lit "/api/v1/server/UniProxy/user")) [
    | err e ↦ err e
    | ok reply ↦ users_of_reply reply
  ]

  -- The text of an answer with an error: the message, or the error.
  abbrev error_of : Reply Raw → Text
  error_of reply =
      let message = trim_space reply.message in
      if is_empty message then trim_space reply.error_text else message

  unfoldable pub config_of_reply : Reply Raw → Result (FetchError E) NodeConfig
  unfolding decode_node_config trim_space
  config_of_reply reply =
      if not (is_success reply)
      then err (bad_status reply.status (error_of reply))
      else elim reply.as_raw [
        | none ↦ err bad_body
        | some raw ↦ elim (decode_node_config http.unmarshal http.unmarshal_data raw) [
          | err e ↦ err (bad_config e)
          | ok cfg ↦ ok cfg
        ]
      ]

  -- `FetchNodeConfig`
  unfoldable pub fetch_node_config : Client → Result (FetchError E) NodeConfig
  unfolding get_endpoint config_of_reply
  fetch_node_config c = elim (get_endpoint c (lit "/api/v1/server/UniProxy/config")) [
    | err e ↦ err e
    | ok reply ↦ config_of_reply reply
  ]
