-- ===== src/Agent/Users/Index.antt =====
-- What the loops of `ApplyBox` make of the panel's list: the users by number, the owners of the secrets
-- and the limiters (cmd/mini-sb-agent/user_manager.go).
use mini_sb_xboard_agent.Base.{
  ◌≡◌, refl, ap, ◌∙◌, Bool, false, ◌&&◌, ◌||◌, Option, none, some, List, [], ◌∷◌, ◌==◌, arith,
  if◌then◌else◌, Bool-cases, Option-cases, inl, inr,
}
use mini_sb_xboard_agent.Base.Int.{ℤ, pos, ltb_ℤ, leb_ℤ, int_eq}
use mini_sb_xboard_agent.Base.Text.{Text, text_eq, text_beq_iff, is_empty}
use mini_sb_xboard_agent.Base.Map.{
  Map, IsMap, AllEntries, lookup, contains-lookup, lookup-put, put-IsMap, put-AllEntries,
}
use mini_sb_xboard_agent.PanelApi.{User}
use mini_sb_xboard_agent.Agent.Users.{
  Clock, UserManager, no_changes, put_secret, index_by_id, retire_all,
}
use mini_sb_xboard_agent.Agent.Users.Apply.{planned}
use mini_sb_xboard_agent.Agent.Users.Limits.{
  Kept, retire_all-Kept, enrol_all-Kept, IsOwned, limit_of, limit_for_known, retire_all-IsOwned,
  enrol_all-IsOwned, limit_of-retire_all, limit_of-enrol_all,
}

abbrev pub or_else {ℓ} : {A : Type ℓ} → Option A → Option A → Option A
or_else none y = y
or_else (some x) y = some x

-- The user of the panel's list with a number: the last one, and only with a positive number.
unfoldable pub panel_user : ℤ → List User → Option User
panel_user j [] = none
panel_user j (u ∷ us) =
    or_else (panel_user j us) (if u.id == j && ltb_ℤ (pos 0) u.id then some u else none)

abbrev pub has_secret : Text → User → Bool
has_secret v u = u.uuid == v || (u.password == v || u.name == v)

-- Whom a secret belongs to: the last user of the panel's list, with a positive number, that has it.
unfoldable pub owner_of : Text → List User → Option ℤ
owner_of v [] = none
owner_of v (u ∷ us) =
    or_else (owner_of v us) (if has_secret v u && ltb_ℤ (pos 0) u.id then some u.id else none)

pub lookup-index_by_id :
    (j : ℤ) (us : List User) (st : Map ℤ User × Map Text ℤ)
    → lookup j (index_by_id us st).0 ≡ or_else (panel_user j us) (lookup j st.0)
unfolding index_by_id panel_user
lookup-index_by_id j [] st = refl
lookup-index_by_id j (u ∷ us) st = elim (Bool-cases (leb_ℤ u.id (pos 0))) [
  | inl skipped ↦ rw (index_by_id, skipped) (lookup-index_by_id j us st ∙ ground arith)
  | inr counted ↦
      rw (index_by_id, counted)
        (lookup-index_by_id j us _
          ∙ ap (or_else (panel_user j us)) (lookup-put j u.id u st.0)
          ∙ ground arith)
]

lookup-put_secret :
    (v : Text) (id : ℤ) (secret : Text) (m : Map Text ℤ)
    → is_empty v ≡ false
    → lookup v (put_secret id secret m) ≡ (if secret == v then some id else lookup v m)
lookup-put_secret v id [] m h = ground (arith, text_beq_iff [] v)
lookup-put_secret v id (c ∷ s) m h = lookup-put v (c ∷ s) id m

pub secret-index_by_id :
    (v : Text) (us : List User) (st : Map ℤ User × Map Text ℤ)
    → is_empty v ≡ false
    → lookup v (index_by_id us st).1 ≡ or_else (owner_of v us) (lookup v st.1)
unfolding index_by_id owner_of
secret-index_by_id v [] st h = refl
secret-index_by_id v (u ∷ us) st h = elim (Bool-cases (leb_ℤ u.id (pos 0))) [
  | inl skipped ↦ rw (index_by_id, skipped) (secret-index_by_id v us st h ∙ ground arith)
  | inr counted ↦
      rw (index_by_id, counted)
        (secret-index_by_id v us _ h
          ∙ ap (or_else (owner_of v us)) (
              lookup-put_secret v u.id u.name _ h
              ∙ ap (λ o. if u.name == v then some u.id else o)
                  (lookup-put_secret v u.id u.password _ h
                    ∙ ap (λ o. if u.password == v then some u.id else o)
                        (lookup-put_secret v u.id u.uuid st.1 h)))
          ∙ ground arith)
]

pub index_by_id-IsMap :
    (us : List User) (st : Map ℤ User × Map Text ℤ) → IsMap st.0 → IsMap (index_by_id us st).0
unfolding index_by_id
index_by_id-IsMap [] st unique = unique
index_by_id-IsMap (u ∷ us) st unique = elim (Bool-cases (leb_ℤ u.id (pos 0))) [
  | inl skipped ↦ rw (index_by_id, skipped) (index_by_id-IsMap us st unique)
  | inr counted ↦ rw (index_by_id, counted) (index_by_id-IsMap us _ (put-IsMap u.id u st.0 unique))
]

pub index_by_id-named :
    (us : List User) (st : Map ℤ User × Map Text ℤ)
    → AllEntries (λ id u. u.id ≡ id) st.0
    → AllEntries (λ id u. u.id ≡ id) (index_by_id us st).0
unfolding index_by_id
index_by_id-named [] st named = named
index_by_id-named (u ∷ us) st named = elim (Bool-cases (leb_ℤ u.id (pos 0))) [
  | inl skipped ↦ rw (index_by_id, skipped) (index_by_id-named us st named)
  | inr counted ↦
      rw (index_by_id, counted)
        (index_by_id-named us _
          (put-AllEntries (λ (id : ℤ) (v : User). v.id ≡ id) u.id u st.0 refl named))
]

-- Only users have limiters.
abbrev pub IsCovered : UserManager → Type 0
IsCovered m = (j : ℤ) → lookup j m.users ≡ none → limit_of j m ≡ none

abbrev pub list_index : List User → Map ℤ User × Map Text ℤ
list_index us = index_by_id us ([], [])

pub planned-IsOwned :
    (enabled : Bool) (clock : Clock) (us : List User) (m : UserManager)
    → IsOwned m
    → IsOwned (planned enabled clock us m).1
planned-IsOwned enabled clock us m owned =
    enrol_all-IsOwned enabled clock m.users (list_index us).0
      (retire_all (list_index us).0 m.users (no_changes, m))
      (retire_all-IsOwned (list_index us).0 m.users (no_changes, m) owned)

pub planned-Kept :
    (enabled : Bool) (clock : Clock) (us : List User) (m : UserManager)
    → Kept m (planned enabled clock us m).1
planned-Kept enabled clock us m =
    let retired = retire_all-Kept (list_index us).0 m.users (no_changes, m) in
    let st = retire_all (list_index us).0 m.users (no_changes, m) in
    let enrolled = enrol_all-Kept enabled clock m.users (list_index us).0 st in
    (enrolled.0 ∙ retired.0, enrolled.1 ∙ retired.1)

pub or_else-none : {A : Type 0} (x : Option A) → or_else x none ≡ x
or_else-none none = refl
or_else-none (some x) = refl

pub known_user : (j : ℤ) (us : List User) → lookup j (list_index us).0 ≡ panel_user j us
unfolding lookup
known_user j us = lookup-index_by_id j us ([], []) ∙ or_else-none (panel_user j us)

-- A user who is not in the new list keeps no limiters.
none_left :
    (j : ℤ) (us : List User) (m : UserManager)
    → IsOwned m
    → IsCovered m
    → panel_user j us ≡ none
    → limit_of j (retire_all (list_index us).0 m.users (no_changes, m)).1 ≡ none
none_left j us m owned covered gone =
    limit_of-retire_all j (list_index us).0 m.users (no_changes, m) owned
    ∙ ground (
      arith,
      known_user j us,
      contains-lookup j m.users,
      contains-lookup j (list_index us).0,
      covered j,
    )

pub limit_of-planned :
    (j : ℤ) (enabled : Bool) (clock : Clock) (us : List User) (m : UserManager)
    → IsOwned m
    → IsCovered m
    → limit_of j (planned enabled clock us m).1 ≡ limit_for_known enabled (panel_user j us) none
limit_of-planned j enabled clock us m owned covered =
    let next = (list_index us).0 in
    let st = retire_all next m.users (no_changes, m) in
    limit_of-enrol_all j enabled clock m.users next st
      (retire_all-IsOwned next m.users (no_changes, m) owned) (index_by_id-IsMap us ([], []) tt)
      (index_by_id-named us ([], []) tt)
    ∙ elim (Option-cases (panel_user j us)) [
      | inl gone ↦ rw (known_user j us, gone) (none_left j us m owned covered gone)
      | inr (u, found) ↦ rw (known_user j us, found) refl
    ]
