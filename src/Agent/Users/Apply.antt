-- ===== src/Agent/Users/Apply.antt =====
-- `ApplyBox` and the lookups of the user manager (cmd/mini-sb-agent/user_manager.go).
use mini_sb_xboard_agent.Base.{
  Bool, Option, none, some, List, [], ◌∷◌, if◌then◌else◌, Result, ok, err,
}
use mini_sb_xboard_agent.Base.Int.{ℤ, int_eq}
use mini_sb_xboard_agent.Base.Text.{Text, text_eq, is_empty, itoa}
use mini_sb_xboard_agent.Base.Map.{Map, lookup, put}
use mini_sb_xboard_agent.Counter.RateLimit.{RateLimiter}
use mini_sb_xboard_agent.PanelApi.{User}
use mini_sb_xboard_agent.Agent.Users.{
  LimiterPair, Clock, UserManager, VlessUser, Hysteria2User, Changes, no_changes, index_by_id,
  retire_all, enrol_all,
}

-- An inbound of sing-box and its methods, on a state W that they change even where they fail.
pub data Inbound (W E : Type 0) : Type 0 where
  vless :
      (List Text → W → W × Result E (Unit {0}))
      → (List VlessUser → W → W × Result E (Unit {0}))
      → Inbound W E
  hysteria2 :
      (List Text → W → W × Result E (Unit {0}))
      → (List Hysteria2User → List ℤ → W → W × Result E (Unit {0}))
      → Inbound W E
  other_inbound : Inbound W E

-- What the two loops over the users leave: the changes for the inbounds, and the limiters.
abbrev pub planned : Bool → Clock → List User → UserManager → Changes × UserManager
planned enabled clock us m =
    let next = (index_by_id us ([], [])).0 in
    enrol_all enabled clock m.users next (retire_all next m.users (no_changes, m))

module _ {W E : Type 0} where
  -- `if len(l) > 0 { if err := call(l); err != nil { return err } }`
  abbrev pub unless_empty :
      {A : Type 0} → List A → (W → W × Result E (Unit {0})) → W → W × Result E (Unit {0})
  unless_empty [] call w = (w, ok tt)
  unless_empty (x ∷ l) call w = call w

  abbrev pub and_then :
      W × Result E (Unit {0}) → (W → W × Result E (Unit {0})) → W × Result E (Unit {0})
  and_then (w, err e) k = (w, err e)
  and_then (w, ok _) k = k w

  unfoldable pub apply_inbound : Inbound W E → Changes → W → W × Result E (Unit {0})
  apply_inbound (vless del add) c w =
      and_then (unless_empty c.del_vless (del c.del_vless) w)
        (unless_empty c.add_vless (add c.add_vless))
  apply_inbound (hysteria2 del add) c w =
      and_then (unless_empty c.del_hy2 (del c.del_hy2) w)
        (unless_empty c.add_hy2 (add c.add_hy2 c.add_hy2_ids))
  apply_inbound other_inbound c w = (w, ok tt)

  -- The loop over the inbounds, up to the first error.
  unfoldable pub apply_inbounds : Map Text (Inbound W E) → Changes → W → W × Result E (Unit {0})
  unfolding apply_inbound
  apply_inbounds [] c w = (w, ok tt)
  apply_inbounds ((tag, x) ∷ inbounds) c w =
      and_then (apply_inbound x c w) (apply_inbounds inbounds c)

  -- `ApplyBox`: after an error the limiters have changed, the users have not.
  unfoldable pub apply_box :
      Bool
      → Clock
      → Map Text (Inbound W E)
      → List User
      → UserManager × W
      → (UserManager × W) × Result E (Unit {0})
  unfolding index_by_id retire_all enrol_all apply_inbounds
  apply_box enabled clock inbounds us (m, w) =
      let index = index_by_id us ([], []) in
      let plan = planned enabled clock us m in
      let done = apply_inbounds inbounds plan.0 w in
      elim done.1 [
        | err e ↦ ((plan.1, done.0), err e)
        | ok _ ↦ ((record plan.1 { users = index.0; by_secret = index.1 }, done.0), ok tt)
      ]

-- `Resolve`
unfoldable pub resolve : Text → UserManager → Text
resolve user m =
    if is_empty user then [] else elim (lookup user m.by_secret) [ none ↦ user | some id ↦ itoa id ]

-- `ActiveIDs`
abbrev pub active_from : Map ℤ User → Map Text (Unit {0}) → Map Text (Unit {0})
active_from [] out = out
active_from ((id, u) ∷ users) out = active_from users (put (itoa id) tt out)

unfoldable pub active_ids : UserManager → Map Text (Unit {0})
active_ids m = active_from m.users []

-- The limiters of the user who logged in with a secret, if there are any.
unfoldable pub user_limit : Bool → Text → UserManager → Option LimiterPair
user_limit enabled user m =
    if enabled
    then elim (lookup user m.by_secret) [
      | none ↦ none
      | some id ↦ elim (lookup id m.limiters) [ none ↦ none | some a ↦ some (m.heap a) ]
    ]
    else none

abbrev pub rx_of : Option LimiterPair → Option RateLimiter
rx_of none = none
rx_of (some l) = some l.rx

abbrev pub tx_of : Option LimiterPair → Option RateLimiter
tx_of none = none
tx_of (some l) = some l.tx

-- `DirectionalLimiters`
unfoldable pub directional_limiters :
    Bool
    → Text
    → UserManager
    → (Option RateLimiter × Option RateLimiter) × (Option RateLimiter × Option RateLimiter)
unfolding user_limit
directional_limiters enabled user m = (
  (rx_of m.node_limit, tx_of m.node_limit),
  (rx_of (user_limit enabled user m), tx_of (user_limit enabled user m)),
)

-- `Limiters`
unfoldable pub representative_limiters :
    Bool → Text → UserManager → Option RateLimiter × Option RateLimiter
unfolding user_limit
representative_limiters enabled user m = (rx_of m.node_limit, rx_of (user_limit enabled user m))
