-- ===== src/Agent/Update.antt =====
-- The function that `main` gives the synchroniser for the panel's users (cmd/mini-sb-agent/main.go):
-- `ApplyBox`, then `RemoveAbsent` with the active numbers.
use mini_sb_xboard_agent.Base.{
  ◌≡◌, refl, ap, ◌∙◌, Bool, true, false, some, List, [], ◌∷◌, ◌==◌, arith, Bool-cases, Option-cases,
  Result-cases, inl, inr, Result, ok, err, beq_refl, eq_of_beq,
}
use mini_sb_xboard_agent.Base.Int.{ℤ, int_eq}
use mini_sb_xboard_agent.Base.Text.{Text, text_eq, is_empty, itoa}
use mini_sb_xboard_agent.Base.Map.{Map, IsMap, lookup, contains, put, contains-put}
use mini_sb_xboard_agent.PanelApi.{User}
use mini_sb_xboard_agent.Counter.Traffic.{TrafficCounter, remove_absent}
use mini_sb_xboard_agent.Counter.Traffic.Ledger.{lookup-remove_from, goes}
use mini_sb_xboard_agent.Agent.Hook.{Hook, remove_absent_all}
use mini_sb_xboard_agent.Agent.Users.{Clock, UserManager}
use mini_sb_xboard_agent.Agent.Users.Apply.{Inbound, apply_box, resolve, active_from, active_ids}
use mini_sb_xboard_agent.Agent.Users.Index.{
  panel_user, owner_of, or_else-none, known_user, list_index, secret-index_by_id,
}
use mini_sb_xboard_agent.Agent.Users.Billing.{name_of, resolve_lem}
use mini_sb_xboard_agent.Agent.Users.Accepted.{apply_box_ok}

pub record Agent (W : Type 0) : Type 0 where
  pub manager : UserManager
  pub inbounds : W
  pub hook : Hook

unfoldable pub update_users :
    {W E : Type 0}
    → Bool
    → Clock
    → Map Text (Inbound W E)
    → List User
    → Agent W
    → Agent W × Result E (Unit {0})
update_users enabled clock inbounds us a =
    let applied = apply_box enabled clock inbounds us (a.manager, a.inbounds) in
    elim applied.1 [
      | err e ↦ (record a { manager = applied.0.0; inbounds = applied.0.1 }, err e)
      | ok _ ↦ (
        record {
          manager = applied.0.0;
          inbounds = applied.0.1;
          hook = remove_absent_all (active_ids applied.0.0) a.hook;
        },
        ok tt,
      )
    ]

active_from_more :
    (k : Text) (users : Map ℤ User) (out : Map Text (Unit {0}))
    → contains k out ≡ true
    → contains k (active_from users out) ≡ true
active_from_more k [] out h = h
active_from_more k ((id, u) ∷ users) out h =
    active_from_more k users (put (itoa id) tt out)
      (ground (arith, contains-put k (itoa id) tt out))

active_from_lem :
    (id : ℤ) (u : User) (users : Map ℤ User) (out : Map Text (Unit {0}))
    → lookup id users ≡ some u
    → contains (itoa id) (active_from users out) ≡ true
unfolding lookup
active_from_lem id u [] out held = absurd (ground arith)
active_from_lem id u ((j, w) ∷ users) out held = elim (Bool-cases (j == id)) [
  | inl same ↦ active_from_more (itoa id) users (put (itoa j) tt out) (
      ap (λ i. contains (itoa id) (put (itoa i) tt out)) (eq_of_beq j id same)
      ∙ ground (arith, contains-put (itoa id) (itoa id) tt out, beq_refl (itoa id)))
  | inr other ↦ active_from_lem id u users (put (itoa j) tt out) (ground arith)
]

-- Whoever owns a secret stands in the list.
owner_is_user :
    (v : Text) (id : ℤ) (us : List User)
    → owner_of v us ≡ some id
    → (u : User) × (panel_user id us ≡ some u)
unfolding owner_of panel_user
owner_is_user v id [] owner = absurd (ground arith)
owner_is_user v id (u ∷ us) owner = elim (Option-cases (owner_of v us)) [
  | inl absent ↦ elim (Option-cases (panel_user id us)) [
    | inl gone ↦ (u, ground (arith, int_eq.equal_iff u.id id))
    | inr (w, there) ↦ (w, ground arith)
  ]
  | inr (j, there) ↦ let (w, found) = owner_is_user v id us (ground arith) in (w, rw found refl)
]

lookup-remove_absent_all :
    (active : Map Text (Unit {0})) (tag : Text) (h : Hook) (c : TrafficCounter)
    → lookup tag h ≡ some c
    → lookup tag (remove_absent_all active h) ≡ some (remove_absent active c)
unfolding lookup remove_absent_all
lookup-remove_absent_all active tag [] c held = absurd (ground arith)
lookup-remove_absent_all active tag ((t, d) ∷ h) c held = elim (Bool-cases (t == tag)) [
  | inl same ↦ rw same (ap (λ x. some (remove_absent active x)) (ground arith))
  | inr other ↦ rw other (lookup-remove_absent_all active tag h c (ground arith))
]

module _ {W E : Type 0} (enabled : Bool) (clock : Clock) (inbounds : Map Text (Inbound W E))
    (us : List User) (a : Agent W) where
  abbrev pub Updated : Agent W × Result E (Unit {0})
  Updated = update_users enabled clock inbounds us a

  Applied : (UserManager × W) × Result E (Unit {0})
  Applied = apply_box enabled clock inbounds us (a.manager, a.inbounds)

  updated :
      Updated.1 ≡ ok tt
      → (Applied.1 ≡ ok tt)
        × (Updated.0.manager ≡ Applied.0.0)
        × (Updated.0.hook ≡ remove_absent_all (active_ids Applied.0.0) a.hook)
  unfolding update_users Applied
  updated done = elim (Result-cases Applied.1) [
    | inl (e, failed) ↦ absurd (ground arith)
    | inr (_, worked) ↦ (worked, rw (update_users, worked) refl, rw (update_users, worked) refl)
  ]

  owner_is_active :
      (v : Text) (id : ℤ) (m : UserManager)
      → owner_of v us ≡ some id
      → m.users ≡ (list_index us).0
      → contains (itoa id) (active_ids m) ≡ true
  unfolding active_ids
  owner_is_active v id m owner users =
      let (u, found) = owner_is_user v id us owner in
      active_from_lem id u m.users [] (ap (lookup id) users ∙ known_user id us ∙ found)

  -- An update of the users without an error keeps the counter of everyone who can still connect: a
  -- secret that the panel's list gives to a number is resolved to that number, and in each inbound
  -- that number's pointer is the one from before, settled or not.
  pub update_keeps_counter :
      (v : Text) (id : ℤ) (tag : Text) (c : TrafficCounter)
      → Updated.1 ≡ ok tt
      → is_empty v ≡ false
      → owner_of v us ≡ some id
      → lookup tag a.hook ≡ some c
      → IsMap c.counters
      → (resolve v Updated.0.manager ≡ itoa id)
        × ((c' : TrafficCounter) × (lookup tag Updated.0.hook ≡ some c')
            × (lookup (itoa id) c'.counters ≡ lookup (itoa id) c.counters))
  unfolding Applied remove_absent lookup goes
  update_keeps_counter v id tag c done named owner inbound unique =
      let (worked, manager, hook) = updated done in
      let (_, _, users, secrets) =
        apply_box_ok enabled clock inbounds us a.manager a.inbounds worked in
      let active = active_ids Applied.0.0 in
      let is_active = owner_is_active v id Applied.0.0 owner users in
      (
        ap (resolve v) manager
            ∙ resolve_lem v Applied.0.0 named
            ∙ ap (name_of v) (
                ap (lookup v) secrets
                ∙ secret-index_by_id v us ([], []) named
                ∙ or_else-none (owner_of v us)
                ∙ owner),
        (
          remove_absent active c,
          ap (lookup tag) hook ∙ lookup-remove_absent_all active tag a.hook c inbound,
          lookup-remove_from c.heap active (itoa id) c.counters unique ∙ ground (arith, is_active),
        ),
      )
