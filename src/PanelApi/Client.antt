-- ===== src/PanelApi/Client.antt =====
-- The client of one panel (panelapi/client.go) and the local user file (panelapi/local.go). What the
-- HTTP exchange ends with is a parameter, and so is what the JSON decoder makes of a document.
pub mod Amounts
use mini_sb_xboard_agent.Base.{
  ℕ, ◌+◌, Bool, true, false, not, ◌&&◌, ◌||◌, Option, none, some, List, [], ◌∷◌, ◌++◌, map, ◌==◌,
  if◌then◌else◌, Result, ok, err, ◌>>◌,
}
use mini_sb_xboard_agent.Base.Int.{ℤ, pos, add64, int_eq}
use mini_sb_xboard_agent.Base.Text.{
  Text, lit, text_eq, is_empty, to_lower, atoi, itoa, is_digit, contains_text,
}
use mini_sb_xboard_agent.Base.Map.{Map, lookup, put}
use mini_sb_xboard_agent.PanelApi.{User}

-- Upload and download.
abbrev pub Amounts : Type 0
Amounts = ℤ × ℤ

-- The amounts of users, by the tag of the inbound.
abbrev pub Delta : Type 0
Delta = Map Text (Map Text Amounts)

pub record Client : Type 0 where
  pub base_url : Text
  pub token : Text
  pub node_id : Text
  pub node_type : Text

-- A user as the panel sent it: the password is the UUID if there is none, the name is the id.
unfoldable pub complete_user : User → User
complete_user u = record u {
  password = if is_empty u.password then u.uuid else u.password;
  name = if is_empty u.name then itoa u.id else u.name;
}

pub record UserList : Type 0 where
  pub users : List User
  pub data_users : List User

-- `Client.FetchUsers` on a decoded answer.
unfoldable pub complete_users : UserList → List User
complete_users list = map complete_user (elim list.users [ [] ↦ list.data_users | u ∷ us ↦ u ∷ us ])

-- `localUserFile`, decoded.
pub record LocalUserFile : Type 0 where
  pub users : List User
  pub data_users : List User
  pub inbounds : Map Text (List User)

unfoldable pub all_inbounds : Map Text (List User) → List User
all_inbounds [] = []
all_inbounds ((tag, us) ∷ m) = us ++ all_inbounds m

-- `ParseUsers` on a decoded document.
unfoldable pub parse_users : LocalUserFile → List User
unfolding all_inbounds
parse_users file = elim file.users [
  | u ∷ us ↦ u ∷ us
  | [] ↦ elim file.data_users [ u ∷ us ↦ u ∷ us | [] ↦ all_inbounds file.inbounds ]
]

-- `matchesInbound`
unfoldable pub matches_inbound : Text → Text → Bool
matches_inbound node_type tag =
    let t = to_lower node_type in
    if t == lit "vless" || t == lit "vless-reality" || t == lit "reality"
    then tag == lit "vless-in"
    else if t == lit "hy2" || t == lit "hysteria" || t == lit "hysteria2"
    then tag == lit "hy2-in"
    else contains_text t (to_lower tag)

abbrev all_digits : Text → Bool
all_digits [] = true
all_digits (c ∷ t) = is_digit c && all_digits t

-- `isNumericUser`
unfoldable pub is_numeric_user : Text → Bool
is_numeric_user user = not (is_empty user) && all_digits user

-- `old := flat[user]`
abbrev pub amounts_of : Text → Map Text Amounts → Amounts
amounts_of user flat = elim (lookup user flat) [ none ↦ (pos 0, pos 0) | some d ↦ d ]

-- `old[0] += d[0]; old[1] += d[1]; flat[user] = old`, for a numeric user.
unfoldable pub add_amounts : Map Text Amounts → Text → Amounts → Map Text Amounts
add_amounts flat user d =
    if is_numeric_user user
    then put user (add64 (amounts_of user flat).0 d.0, add64 (amounts_of user flat).1 d.1) flat
    else flat

unfoldable pub flatten_users : Map Text Amounts → Map Text Amounts → Map Text Amounts
flatten_users flat [] = flat
flatten_users flat ((user, d) ∷ users) = flatten_users (add_amounts flat user d) users

-- The first loop of `PushTraffic`, over the inbounds that match.
unfoldable pub flatten_matching : (Text → Bool) → Map Text Amounts → Delta → Map Text Amounts
flatten_matching matches flat [] = flat
flatten_matching matches flat ((tag, users) ∷ delta) =
    flatten_matching matches (if matches tag then flatten_users flat users else flat) delta

-- The second loop: the payload by numbers; a numeral that is no int is left out.
unfoldable pub payload_of : Map ℤ Amounts → Map Text Amounts → Map ℤ Amounts
payload_of out [] = out
payload_of out ((user, d) ∷ flat) = elim (atoi user) [
  | none ↦ payload_of out flat
  | some uid ↦ payload_of (put uid d out) flat
]

abbrev none_if_empty : Map ℤ Amounts → Option (Map ℤ Amounts)
none_if_empty [] = none
none_if_empty (x ∷ p) = some (x ∷ p)

-- What `PushTraffic` sends; `none` if it sends nothing.
unfoldable pub push_request : Client → Delta → Option (Map ℤ Amounts)
push_request c delta =
    none_if_empty (payload_of [] (flatten_matching (matches_inbound c.node_type) [] delta))

pub data PushError (E : Type 0) : Type 0 where
  base_url_is_empty bad_url : PushError E
  not_sent : E → PushError E

-- What is outside: whether `url.Parse` takes an address, and what an HTTP exchange for a payload ends
-- with.
pub record Exchange (E : Type 0) : Type 0 where
  pub is_url : Text → Bool
  pub send : Map ℤ Amounts → Result E (Unit {0})

module _ {E : Type 0} (x : Exchange E) where
  -- `endpoint`, but for the query that it builds.
  unfoldable pub check_endpoint : Client → Text → Result (PushError E) (Unit {0})
  check_endpoint c path =
      if is_empty c.base_url
      then err base_url_is_empty
      else if not (x.is_url (c.base_url ++ path))
      then err bad_url
      else ok tt

  unfoldable pub send_payload : Option (Map ℤ Amounts) → Result (PushError E) (Unit {0})
  send_payload none = ok tt
  send_payload (some payload) = elim (x.send payload) [ err e ↦ err (not_sent e) | ok _ ↦ ok tt ]

  -- `Client.PushTraffic`. The address is only made once there are amounts.
  unfoldable pub push_traffic : Client → Delta → Result (PushError E) (Unit {0})
  unfolding check_endpoint send_payload
  push_traffic c delta = elim (flatten_matching (matches_inbound c.node_type) [] delta) [
    | [] ↦ ok tt
    | d ∷ flat ↦
        check_endpoint c (lit "/api/v1/server/UniProxy/push")
        >> send_payload (none_if_empty (payload_of [] (d ∷ flat)))
  ]
