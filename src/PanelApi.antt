-- ===== src/PanelApi.antt =====
-- panelapi/: the agent's view of its panels. What a panel answers is a parameter: the result of its
-- `FetchUsers` and of its `PushTraffic`.
pub mod Merge
pub mod Client
pub mod Sync
pub mod NodeConfig
pub mod Fetch
mod Tests
use mini_sb_xboard_agent.Base.{
  Bool, true, false, Option, none, some, List, [], ◌∷◌, ◌++◌, if◌then◌else◌, Result, ok, err,
}
use mini_sb_xboard_agent.Base.Int.{ℤ, pos, ltb_ℤ, int_eq}
use mini_sb_xboard_agent.Base.Text.{Text}
use mini_sb_xboard_agent.Base.Map.{Map, contains, put}

pub record User : Type 0 where
  pub id : ℤ
  pub uuid : Text
  pub password : Text
  pub name : Text
  pub speed_limit : ℤ

-- The ids seen so far, and the users merged so far.
pub record Merged : Type 0 where
  pub seen : Map ℤ Unit
  pub users : List User

-- One user of a panel.
unfoldable pub merge_user : Merged → User → Merged
merge_user m u =
    if ltb_ℤ (pos 0) u.id
    then (if contains u.id m.seen
        then m
        else record { seen = put u.id tt m.seen; users = m.users ++ (u ∷ []) })
    else record m { users = m.users ++ (u ∷ []) }

unfoldable pub merge_users : Merged → List User → Merged
merge_users m [] = m
merge_users m (u ∷ us) = merge_users (merge_user m u) us

-- A panel that is configured answers with its users or an error; `none` is a nil panel.
abbrev pub Answer : Type 0 → Type 0
Answer E = Option (Result E (List User))

unfoldable pub fetch_from : {E : Type 0} → Merged → List (Answer E) → Result E (List User)
fetch_from m [] = ok m.users
fetch_from m (none ∷ panels) = fetch_from m panels
fetch_from m (some (err e) ∷ panels) = err e
fetch_from m (some (ok us) ∷ panels) = fetch_from (merge_users m us) panels

-- `MultiPanel.FetchUsers`
unfoldable pub fetch_users : {E : Type 0} → List (Answer E) → Result E (List User)
fetch_users panels = fetch_from (record { seen = []; users = [] }) panels
