-- ===== src/Downlink.antt =====
-- The users on their way from the panel to the agent: what `handleUser` (tiny-xboard/api.go) serves,
-- through the JSON between them, as `FetchUsers` (panelapi/client.go) returns it.
mod Tests
use mathlib.Core.List.{Mem, mem-cons_self, mem-cons_of_mem}
use mini_sb_xboard_agent.Base.{
  ℕ, ◌≡◌, ◌≢◌, refl, sym, ap, ◌∙◌, true, false, List, [], ◌∷◌, map, some, arith, All, ok, err,
  Bool-cases, inl, inr, ◌==◌, Result-cases,
}
use mini_sb_xboard_agent.Base.Int.{ℤ, pos, negsuc, ◌≤ℤ◌, int_eq}
use mini_sb_xboard_agent.Base.Text.{Text, lit, text_eq, is_empty, itoa, digits-cons}
use mini_sb_xboard_agent.Base.Map.{lookup-AllEntries}
use mini_sb_xboard_agent.PanelApi.Client.{Client, UserList, complete_user, complete_users}
use mini_sb_xboard_agent.PanelApi.Fetch.{
  Http, Reply, get_endpoint, users_of_reply, fetch_panel_users,
}
use mini_sb_xboard_agent.TinyXboard.Store.State.{Env, World}
use mini_sb_xboard_agent.TinyXboard.Store.LoadUsers.{refresh_users}
use mini_sb_xboard_agent.TinyXboard.Store.Users.{enabled_users}
use mini_sb_xboard_agent.TinyXboard.Store.Users.Invariant.{IsValid, IsUserEntry}
use mini_sb_xboard_agent.TinyXboard.Store.Users.Operations.{refresh_users-IsValid}
use mini_sb_xboard_agent.TinyXboard.Store.Users.Enabled.{enabled_users_lem}
use mini_sb_xboard_agent.TinyXboard.Validate.Laws.{IsUser}
use mini_sb_xboard_agent.TinyXboard.Auth.{authenticate}
use mini_sb_xboard_agent.TinyXboard.Api.Handlers.{Request, Response, users, handle_user}
use mini_sb_xboard_agent.TinyXboard.Schema
use mini_sb_xboard_agent.PanelApi

-- A user with the fields that both programs name alike.
abbrev pub read_user : Schema.User → PanelApi.User
read_user u = record {
  id = u.id;
  uuid = u.uuid;
  password = u.password;
  name = u.name;
  speed_limit = u.speed_limit;
}

-- A user that a connection can be opened for on both protocols, and be billed to.
pub record IsUsable (u : PanelApi.User) : Type 0 where
  pub id_positive : pos 1 ≤ℤ u.id
  pub has_password : is_empty u.password ≡ false
  pub has_name : is_empty u.name ≡ false
  pub speed_limit_nonneg : pos 0 ≤ℤ u.speed_limit

itoa-is_empty : (z : ℤ) → is_empty (itoa z) ≡ false
unfolding itoa
itoa-is_empty (pos n) = let (c, s, e, d) = digits-cons n in ap is_empty e
itoa-is_empty (negsuc n) = refl

some_text : (t : Text) → t ≢ [] → is_empty t ≡ false
some_text [] h = absurd (h refl)
some_text (c ∷ t) h = refl

complete-IsUsable : (u : Schema.User) → IsUser u → IsUsable (complete_user (read_user u))
unfolding complete_user
complete-IsUsable u h = record {
  id_positive = h.id_positive;
  has_password = elim (Bool-cases (is_empty u.password)) [
    | inr given ↦ rw given given
    | inl missing ↦ rw missing (elim h.has_secret [
      | inl uuid ↦ some_text u.uuid uuid
      | inr password ↦ absurd (ground (arith, some_text u.password password, missing))
    ])
  ];
  has_name = elim (Bool-cases (is_empty u.name)) [
    | inr given ↦ rw given given
    | inl missing ↦ rw missing (itoa-is_empty u.id)
  ];
  speed_limit_nonneg = h.speed_limit_nonneg;
}

abbrev pub served : Schema.User → PanelApi.User
served u = complete_user (read_user u)

All-IsUsable :
    (us : List Schema.User)
    → ((u : Schema.User) → Mem u us → IsUser u)
    → All IsUsable (map served us)
All-IsUsable [] h = tt
All-IsUsable (u ∷ us) h =
    (complete-IsUsable u (h u mem-cons_self), All-IsUsable us (λ v m. h v (mem-cons_of_mem u m)))

map-served : (us : List Schema.User) → map complete_user (map read_user us) ≡ map served us
map-served [] = refl
map-served (u ∷ us) = ap (λ l. served u ∷ l) (map-served us)

complete_list :
    (us : List Schema.User)
    → complete_users (record { users = map read_user us; data_users = [] }) ≡ map served us
unfolding complete_users
complete_list [] = refl
complete_list (u ∷ us) = ap (λ l. served u ∷ l) (map-served us)

module _ {Raw E : Type 0} (http : Http Raw E) (c : Client) (reply : Reply Raw) (env : Env)
    (r : Request) (w : World) (listed : List Schema.User)
    (answered : (handle_user env r w).1 ≡ users listed)
    (carried : get_endpoint http c (lit "/api/v1/server/UniProxy/user") ≡ ok reply)
    (succeeded : reply.status ≡ 200)
    (decoded : reply.as_users
      ≡ some (record { users = map read_user listed; data_users = [] })) where
  listed_lem : listed ≡ enabled_users (refresh_users env w).0.store
  unfolding handle_user
  listed_lem = elim (Bool-cases (r.method == lit "GET")) [
    | inr other ↦ absurd (ground (arith, other))
    | inl get ↦ elim (Result-cases (authenticate w.store r.credentials)) [
      | inl (_, refused) ↦ absurd (ground (arith, refused))
      | inr (_, allowed) ↦ ground (arith, allowed)
    ]
  ]

  -- If the panel's store is valid and the connection hands the client, with status 200, the users that
  -- `handleUser` served it: `FetchUsers` returns, in the same order, the enabled users that the store
  -- has after it looked for a new users.json, each with the fields that both programs share, and
  -- each with a positive id, a password, a name and a speed limit of 0 or more, whatever
  -- the panel's documents left out.
  pub fetched_users :
      IsValid w.store
      → (fetch_panel_users http c ≡ ok (map served (enabled_users (refresh_users env w).0.store)))
        × All IsUsable (map served (enabled_users (refresh_users env w).0.store))
  unfolding fetch_panel_users users_of_reply
  fetched_users valid =
      let store = (refresh_users env w).0.store in
      let known = refresh_users-IsValid env w valid in
      let (sorted, members) = enabled_users_lem store known in
      (
        rw (fetch_panel_users, carried, users_of_reply, succeeded, decoded)
            (ap ok (complete_list listed ∙ ap (map served) listed_lem)),
        All-IsUsable (enabled_users store) (λ u m.
            (lookup-AllEntries IsUserEntry u.id u store.users known.users_valid.keyed
              ((members u).0 m).0).1),
      )
