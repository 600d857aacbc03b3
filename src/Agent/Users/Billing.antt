-- ===== src/Agent/Users/Billing.antt =====
-- What a connection of a user is billed to and limited to after `ApplyBox`, from the panel's list
-- alone (cmd/mini-sb-agent/user_manager.go).
use mini_sb_xboard_agent.Base.{
  ◌≡◌, refl, sym, ap, ◌∙◌, Bool, true, false, Option, none, some, List, [], arith, if◌then◌else◌,
  Result, ok, err, Result-cases, inl, inr,
}
use mini_sb_xboard_agent.Base.Int.{ℤ, int_eq}
use mini_sb_xboard_agent.Base.Text.{Text, text_eq, is_empty, itoa}
use mini_sb_xboard_agent.Base.Map.{Map, lookup}
use mini_sb_xboard_agent.Counter.RateLimit.{RateLimiter}
use mini_sb_xboard_agent.PanelApi.{User}
use mini_sb_xboard_agent.Agent.Users.{LimiterPair, Clock, UserManager}
use mini_sb_xboard_agent.Agent.Users.Apply.{
  Inbound, planned, apply_inbounds, apply_box, resolve, directional_limiters, user_limit, rx_of,
  tx_of,
}
use mini_sb_xboard_agent.Agent.Users.Limits.{
  IsOwned, rates_of, limit_of, limit_for, limit_for_known,
}
use mini_sb_xboard_agent.Agent.Users.Index.{
  panel_user, owner_of, secret-index_by_id, IsCovered, list_index, planned-IsOwned, planned-Kept,
  or_else-none, known_user, limit_of-planned,
}

-- The secret's owner, and the owner's user, as the panel's list tells.
abbrev pub name_of : Text → Option ℤ → Text
name_of v none = v
name_of v (some id) = itoa id

abbrev pub billed : Text → List User → Text
billed v us = name_of v (owner_of v us)

abbrev pub limit_of_owner : Bool → Option ℤ → List User → Option (ℤ × ℤ)
limit_of_owner enabled none us = none
limit_of_owner enabled (some id) us = limit_for_known enabled (panel_user id us) none

abbrev pub limit_by_list : Bool → Text → List User → Option (ℤ × ℤ)
limit_by_list enabled v us = limit_of_owner enabled (owner_of v us) us

abbrev pub rates : Option LimiterPair → Option (ℤ × ℤ)
rates none = none
rates (some l) = some (rates_of l)

-- The limit of the user that a secret belongs to.
abbrev limit_at : Bool → UserManager → Option ℤ → Option (ℤ × ℤ)
limit_at enabled m none = none
limit_at enabled m (some id) = if enabled then limit_of id m else none

user_limit_lem :
    (enabled : Bool) (v : Text) (m : UserManager)
    → rates (user_limit enabled v m) ≡ limit_at enabled m (lookup v m.by_secret)
unfolding user_limit limit_of
user_limit_lem enabled v m = ground arith

pub resolve_lem :
    (v : Text) (m : UserManager)
    → is_empty v ≡ false
    → resolve v m ≡ name_of v (lookup v m.by_secret)
unfolding resolve
resolve_lem v m named = ground arith

abbrev pub speeds : Option RateLimiter × Option RateLimiter → Option (ℤ × ℤ)
speeds (some r, some t) = some (r.rate, t.rate)
speeds (some r, none) = none
speeds (none, t) = none

speeds-user_limit : (l : Option LimiterPair) → speeds (rx_of l, tx_of l) ≡ rates l
speeds-user_limit none = refl
speeds-user_limit (some l) = refl

limit_when_enabled :
    (enabled : Bool) (u : Option User)
    → (if enabled then limit_for_known enabled u none else none) ≡ limit_for_known enabled u none
unfolding limit_for
limit_when_enabled true u = refl
limit_when_enabled false none = refl
limit_when_enabled false (some u) = refl

module _ {W E : Type 0} (enabled : Bool) (clock : Clock) (inbounds : Map Text (Inbound W E))
    (us : List User) (m : UserManager) (w : W) (owned : IsOwned m) (covered : IsCovered m) where
  abbrev pub After : (UserManager × W) × Result E (Unit {0})
  After = apply_box enabled clock inbounds us (m, w)

  New : UserManager
  New = record (planned enabled clock us m).1 {
    users = (list_index us).0;
    by_secret = (list_index us).1;
  }

  applied : After.1 ≡ ok tt → After.0.0 ≡ New
  unfolding New apply_box
  applied done = elim (Result-cases (apply_inbounds inbounds (planned enabled clock us m).0 w).1) [
    | inl (e, failed) ↦ absurd (ground arith)
    | inr (_, worked) ↦ rw (apply_box, worked) refl
  ]

  not_applied : {e : E} → After.1 ≡ err e → After.0.0 ≡ (planned enabled clock us m).1
  unfolding apply_box
  not_applied failed =
      elim (Result-cases (apply_inbounds inbounds (planned enabled clock us m).0 w).1) [
        | inl (e, refused) ↦ rw (apply_box, refused) refl
        | inr (_, worked) ↦ absurd (ground arith)
      ]

  limit_of-new : (j : ℤ) → limit_of j New ≡ limit_for_known enabled (panel_user j us) none
  unfolding New limit_of
  limit_of-new j = limit_of-planned j enabled clock us m owned covered

  secret_new : (v : Text) → is_empty v ≡ false → lookup v New.by_secret ≡ owner_of v us
  unfolding New lookup
  secret_new v named = secret-index_by_id v us ([], []) named ∙ or_else-none (owner_of v us)

  limit_at-new : (o : Option ℤ) → limit_at enabled New o ≡ limit_of_owner enabled o us
  limit_at-new none = refl
  limit_at-new (some id) =
      ap (λ o. if enabled then o else none) (limit_of-new id)
      ∙ limit_when_enabled enabled (panel_user id us)

  limit_by_secret :
      (v : Text)
      → is_empty v ≡ false
      → rates (user_limit enabled v New) ≡ limit_by_list enabled v us
  limit_by_secret v named =
      user_limit_lem enabled v New
      ∙ ap (limit_at enabled New) (secret_new v named)
      ∙ limit_at-new (owner_of v us)

  -- After `ApplyBox` without an error, a connection of a user with a name is billed to the last user
  -- of the panel's list who has that name as UUID, password or name, and its two limiters have the
  -- speed limit that the list gives that user, in bytes per second. A name of nobody is billed as it
  -- is, without limiters. Before, each user's limiters are its own and only users have limiters.
  pub apply_box_bills :
      After.1 ≡ ok tt
      → (v : Text) → is_empty v ≡ false
      → (resolve v After.0.0 ≡ billed v us)
        × (speeds (directional_limiters enabled v After.0.0).1 ≡ limit_by_list enabled v us)
  unfolding directional_limiters
  apply_box_bills done v named = (
    ap (resolve v) (applied done) ∙ resolve_lem v New named ∙ ap (name_of v) (secret_new v named),
    ap (λ x. speeds (directional_limiters enabled v x).1) (applied done)
        ∙ speeds-user_limit (user_limit enabled v New)
        ∙ limit_by_secret v named,
  )

  -- After `ApplyBox` without an error, each user's limiters are still its own, and only users have
  -- limiters.
  pub apply_box_keeps : After.1 ≡ ok tt → IsOwned After.0.0 × IsCovered After.0.0
  unfolding New
  apply_box_keeps done = rw (applied done) (
    planned-IsOwned enabled clock us m owned,
    λ j gone.
        limit_of-new j ∙ ap (λ u. limit_for_known enabled u none) (sym (known_user j us) ∙ gone),
  )

  -- After `ApplyBox` with an error of an inbound, the limiters of each number are those that the
  -- panel's list gives it, while the users and the names that are resolved are those from before.
  pub apply_box_failed :
      {e : E}
      → After.1 ≡ err e
      → (After.0.0.users ≡ m.users)
        × (After.0.0.by_secret ≡ m.by_secret)
        × ((j : ℤ) → limit_of j After.0.0 ≡ limit_for_known enabled (panel_user j us) none)
  apply_box_failed failed = rw (not_applied failed) (
    (planned-Kept enabled clock us m).0,
    (planned-Kept enabled clock us m).1,
    λ j. limit_of-planned j enabled clock us m owned covered,
  )
