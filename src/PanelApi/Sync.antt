-- ===== src/PanelApi/Sync.antt =====
-- The synchronisation with the panel (panelapi/sync.go, `PushTraffic` of panelapi/multi.go). The panel,
-- the counters and the application of the users are the parameters that they are in the source.
pub mod Laws
use mini_sb_xboard_agent.Base.{
  Bool, true, false, ◌||◌, Option, none, some, List, [], ◌∷◌, if◌then◌else◌, Result, ok, err,
}
use mini_sb_xboard_agent.Base.Text.{Text}
use mini_sb_xboard_agent.Base.Map.{Map}
use mini_sb_xboard_agent.PanelApi.{User}
use mini_sb_xboard_agent.PanelApi.Client.{Amounts, Delta, is_numeric_user}

-- The panel: what its two methods return.
pub record Panel (E : Type 0) : Type 0 where
  pub fetch_users : Result E (List User)
  pub push_traffic : Delta → Result E (Unit {0})

-- `Snapshot`, `Commit` and `Users` of `Syncer`, on the state of the agent.
pub record Callbacks (S E : Type 0) : Type 0 where
  pub snapshot : S → Delta
  pub commit : Delta → S → S
  pub users : List User → S → S × Result E (Unit {0})

abbrev pub any_numeric : Map Text Amounts → Bool
any_numeric [] = false
any_numeric ((user, d) ∷ users) = is_numeric_user user || any_numeric users

-- The two loops that look for a numeric user.
unfoldable pub has_traffic : Delta → Bool
has_traffic [] = false
has_traffic ((tag, users) ∷ delta) = any_numeric users || has_traffic delta

unfoldable pub numeric_only : Map Text Amounts → Map Text Amounts
numeric_only [] = []
numeric_only ((user, d) ∷ users) =
    let rest = numeric_only users in if is_numeric_user user then (user, d) ∷ rest else rest

-- `if len(users) > 0 { out[tag] = users }`, for a new tag.
abbrev pub keep_tag : Text → Map Text Amounts → Delta → Delta
keep_tag tag [] out = out
keep_tag tag (x ∷ users) out = (tag, x ∷ users) ∷ out

-- `commitDelta`: an inbound without a numeric user is left out.
unfoldable pub commit_delta : Delta → Delta
commit_delta [] = []
commit_delta ((tag, users) ∷ delta) = keep_tag tag (numeric_only users) (commit_delta delta)

-- `MultiPanel.PushTraffic`: the panels are asked in order, up to the first that fails. The list tells
-- which of those that were asked took the delta.
unfoldable pub push_to_all :
    {E : Type 0} → List (Option (Panel E)) → Delta → List Bool × Result E (Unit {0})
push_to_all [] delta = ([], ok tt)
push_to_all (none ∷ panels) delta = push_to_all panels delta
push_to_all (some p ∷ panels) delta = elim (p.push_traffic delta) [
  | err e ↦ (false ∷ [], err e)
  | ok _ ↦ let rest = push_to_all panels delta in (true ∷ rest.0, rest.1)
]

-- One round of `Run`: the traffic before it, what the panel answers, and the traffic while it is asked.
pub record Round (S E : Type 0) : Type 0 where
  pub idle : S → S
  pub panel : Panel E
  pub meanwhile : S → S

module _ {S E : Type 0} (calls : Callbacks S E) where
  -- `flush`. The connections go on while the panel is asked: `meanwhile` is what they do to the state
  -- after the snapshot, and before the commit if there is one.
  unfoldable pub flush : (Delta → Result E (Unit {0})) → (S → S) → S → S
  unfolding has_traffic commit_delta
  flush push meanwhile s =
      let delta = calls.snapshot s in
      if has_traffic delta
      then elim (push delta) [
        | err _ ↦ meanwhile s
        | ok _ ↦ calls.commit (commit_delta delta) (meanwhile s)
      ]
      else meanwhile s

  -- `syncOnce`, with a panel and all three functions. Errors are logged only.
  unfoldable pub sync_once : Panel E → (S → S) → S → S
  unfolding flush
  sync_once p meanwhile s = elim p.fetch_users [
    | err _ ↦ flush p.push_traffic meanwhile s
    | ok us ↦ flush p.push_traffic meanwhile (calls.users us s).0
  ]

  -- The loop of `Run`: a first round and one for each tick.
  unfoldable pub sync_rounds : List (Round S E) → S → S
  sync_rounds [] s = s
  sync_rounds (r ∷ rs) s = sync_rounds rs (sync_once r.panel r.meanwhile (r.idle s))

  -- `Run`: when the context ends, the traffic is flushed once more.
  unfoldable pub run : List (Round S E) → Round S E → S → S
  run rounds last s =
      let s' = last.idle (sync_rounds rounds s) in flush last.panel.push_traffic last.meanwhile s'
