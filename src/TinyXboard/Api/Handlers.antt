-- ===== src/TinyXboard/Api/Handlers.antt =====
-- The handlers `handleUser`, `handleConfig` and `handlePush` (tiny-xboard/api.go). What the JSON
-- decoder answers for a body is part of the request.
use mini_sb_xboard_agent.Base.{
  ℕ, ◌+◌, Bool, Option, none, some, List, [], ◌∷◌, if◌then◌else◌, ok, err, ◌==◌,
}
use mini_sb_xboard_agent.Base.Int.{ℤ}
use mini_sb_xboard_agent.Base.Text.{Text, lit, text_eq, atoi}
use mini_sb_xboard_agent.Base.Map.{Map, lookup}
use mini_sb_xboard_agent.TinyXboard.Schema.{NodeEntry, User}
use mini_sb_xboard_agent.TinyXboard.Store.State.{Store, Env, World}
use mini_sb_xboard_agent.TinyXboard.Store.LoadUsers.{refresh_users}
use mini_sb_xboard_agent.TinyXboard.Store.Users.{enabled_users, accumulate}
use mini_sb_xboard_agent.TinyXboard.Auth.{Credentials, Denied, authenticate}

-- One item of the list under "traffic".
pub record Entry : Type 0 where
  pub uid : ℤ
  pub up : ℤ
  pub down : ℤ

-- A raw value of the body: how it decodes as a list of entries, and as a pair of amounts.
pub record RawMessage : Type 0 where
  pub as_entries : Option (List Entry)
  pub as_pair : Option (ℤ × ℤ)

-- What decoding a body gives: it is over 256 KiB, it is no JSON object, or its fields.
pub data Body : Type 0 where
  oversized malformed : Body
  fields : Map Text RawMessage → Body

pub record Request : Type 0 where
  pub method : Text
  pub credentials : Credentials
  pub slot_free : Bool
  pub body : Body

-- The answers with status 405, 404 or 401, 503, 413 and 400, and the three with status 200.
pub data Response : Type 0 where
  method_not_allowed : Text → Response
  denied : Denied → Response
  server_busy payload_too_large invalid_payload : Response
  users : List User → Response
  config : NodeEntry → Response
  accepted : ℕ → Response

unfoldable pub handle_user : Env → Request → World → World × Response
handle_user env r w =
    if r.method == lit "GET"
    then elim (authenticate w.store r.credentials) [
      | err d ↦ (w, denied d)
      | ok _ ↦ let w' = (refresh_users env w).0 in (w', users (enabled_users w'.store))
    ]
    else (w, method_not_allowed (lit "GET"))

-- The entry of the answer is rendered by `node_config_response`.
unfoldable pub handle_config : Request → World → World × Response
handle_config r w =
    if r.method == lit "GET"
    then elim (authenticate w.store r.credentials) [
      | err d ↦ (w, denied d)
      | ok entry ↦ (w, config entry)
    ]
    else (w, method_not_allowed (lit "GET"))

-- `if s.store.Accumulate(…) { accepted++ }`
unfoldable pub count_accepted : ℕ → ℤ → ℤ → ℤ → Store → Store × ℕ
count_accepted n uid up down s = let r = accumulate uid up down s in (r.0, if r.1 then n + 1 else n)

-- The loop over the entries under "traffic".
unfoldable pub push_entries : ℕ → List Entry → Store → Store × ℕ
unfolding count_accepted
push_entries n [] s = (s, n)
push_entries n (e ∷ es) s = let r = count_accepted n e.uid e.up e.down s in push_entries r.1 es r.0

-- One field of the compact form.
unfoldable pub push_pair : ℕ → Text → RawMessage → Store → Store × ℕ
unfolding count_accepted
push_pair n key v s = elim v.as_pair [
  | none ↦ (s, n)
  | some (up, down) ↦ elim (atoi key) [ none ↦ (s, n) | some id ↦ count_accepted n id up down s ]
]

-- The loop over the fields of the compact form.
unfoldable pub push_pairs : ℕ → Map Text RawMessage → Store → Store × ℕ
unfolding push_pair
push_pairs n [] s = (s, n)
push_pairs n ((key, v) ∷ m) s = let r = push_pair n key v s in push_pairs r.1 m r.0

unfoldable pub push_fields : Map Text RawMessage → World → World × Response
unfolding push_entries push_pairs
push_fields raw w = elim (lookup (lit "traffic") raw) [
  | some v ↦ elim v.as_entries [
    | none ↦ (w, invalid_payload)
    | some entries ↦
        let r = push_entries 0 entries w.store in (record w { store = r.0 }, accepted r.1)
  ]
  | none ↦ let r = push_pairs 0 raw w.store in (record w { store = r.0 }, accepted r.1)
]

unfoldable pub push_body : Body → World → World × Response
unfolding push_fields
push_body oversized w = (w, payload_too_large)
push_body malformed w = (w, invalid_payload)
push_body (fields raw) w = push_fields raw w

-- `slot_free` tells whether one of the eight readers' slots came free in time.
unfoldable pub handle_push : Env → Request → World → World × Response
unfolding push_body
handle_push env r w =
    if r.method == lit "POST"
    then elim (authenticate w.store r.credentials) [
      | err d ↦ (w, denied d)
      | ok _ ↦ if r.slot_free then push_body r.body (refresh_users env w).0 else (w, server_busy)
    ]
    else (w, method_not_allowed (lit "POST"))
