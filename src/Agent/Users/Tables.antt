-- ===== src/Agent/Users/Tables.antt =====
-- Which users an inbound accepts after `ApplyBox` (cmd/mini-sb-agent/user_manager.go), from what
-- sing-box documents of `AddUsers` and `DelUsers`.
use mini_sb_xboard_agent.Base.{
  ◌≡◌, refl, ap, ◌∙◌, Bool, true, false, not, ◌&&◌, ◌||◌, none, some, List, [], ◌∷◌, ◌++◌, ◌==◌,
  arith, Bool-cases, inl, inr, eq_of_beq,
}
use mini_sb_xboard_agent.Base.Int.{ℤ, int_eq}
use mini_sb_xboard_agent.Base.Text.{Text, text_eq, text_beq_iff, is_empty}
use mini_sb_xboard_agent.Base.Map.{Map, IsMap, lookup}
use mini_sb_xboard_agent.PanelApi.{User}
use mini_sb_xboard_agent.Agent.Users.{
  Clock, UserManager, VlessUser, Changes, retire_user, enrol_user, same_user, same_secrets, retire,
  retire_all, enrol, enrol_all,
}

module _ {V : Type 0} where
  -- Whether an entry of the map passes a test.
  abbrev pub any_entry : (ℤ → V → Bool) → Map ℤ V → Bool
  any_entry f [] = false
  any_entry f ((k, x) ∷ m) = f k x || any_entry f m

  pub found_entry :
      (f : ℤ → V → Bool) (m : Map ℤ V)
      → IsMap m
      → any_entry f m ≡ true
      → (k : ℤ) × (x : V) × (lookup k m ≡ some x) × (f k x ≡ true)
  unfolding lookup
  found_entry f [] unique any = absurd (ground arith)
  found_entry f ((k, x) ∷ m) unique any = elim (Bool-cases (f k x)) [
    | inl here ↦ (k, x, ground (arith, int_eq.equal_iff k k), here)
    | inr absent ↦
        let (j, y, held, passes) = found_entry f m unique.1 (ground arith) in
        (j, y, ground (arith, int_eq.equal_iff k j), passes)
  ]

  pub entry_passes :
      (f : ℤ → V → Bool) (m : Map ℤ V) (k : ℤ) (x : V)
      → lookup k m ≡ some x
      → f k x ≡ true
      → any_entry f m ≡ true
  unfolding lookup
  entry_passes f [] k x held passes = absurd (ground arith)
  entry_passes f ((j, y) ∷ m) k x held passes = elim (Bool-cases (j == k)) [
    | inl same ↦
        let e : f j y ≡ true =
          ap (λ i. f i y) (eq_of_beq j k same) ∙ ap (f k) (ground arith) ∙ passes in
        ground arith
    | inr other ↦ let rest = entry_passes f m k x (ground arith) passes in ground arith
  ]

or_assoc : (a b c : Bool) → (a || b) || c ≡ a || (b || c)
or_assoc true b c = refl
or_assoc false b c = refl

abbrev pub mem_text : Text → List Text → Bool
mem_text v [] = false
mem_text v (s ∷ l) = s == v || mem_text v l

abbrev pub mem_vless : Text → List VlessUser → Bool
mem_vless v [] = false
mem_vless v (u ∷ l) = u.uuid == v || mem_vless v l

mem_text-append : (v s : Text) (l : List Text) → mem_text v (l ++ (s ∷ [])) ≡ mem_text v l || s == v
mem_text-append v s [] = ground arith
mem_text-append v s (t ∷ l) = ground (arith, mem_text-append v s l)

mem_vless-append :
    (v : Text) (u : VlessUser) (l : List VlessUser)
    → mem_vless v (l ++ (u ∷ [])) ≡ mem_vless v l || u.uuid == v
mem_vless-append v u [] = ground arith
mem_vless-append v u (t ∷ l) = ground (arith, mem_vless-append v u l)

-- A user whose UUID is deleted, and one whose UUID is added.
abbrev pub is_retired : Map ℤ User → Text → ℤ → User → Bool
is_retired next v id old =
    old.uuid == v && (elim (lookup id next) [ none ↦ true | some nu ↦ not (same_secrets old nu) ])

abbrev pub is_enrolled : Map ℤ User → Text → ℤ → User → Bool
is_enrolled users v id nu =
    nu.uuid == v && (elim (lookup id users) [ none ↦ true | some old ↦ not (same_user old nu) ])

abbrev pub has_uuid : Text → ℤ → User → Bool
has_uuid v id u = u.uuid == v

module _ (v : Text) (named : is_empty v ≡ false) where
  retire_user_lem :
      (old : User) (c : Changes)
      → (mem_text v (retire_user old c).del_vless ≡ mem_text v c.del_vless || old.uuid == v)
        × ((retire_user old c).add_vless ≡ c.add_vless)
  unfolding retire_user
  retire_user_lem old c =
      ground (arith, mem_text-append v old.uuid c.del_vless, text_beq_iff old.uuid v)

  enrol_user_lem :
      (nu : User) (c : Changes)
      → (mem_vless v (enrol_user nu c).add_vless ≡ mem_vless v c.add_vless || nu.uuid == v)
        × ((enrol_user nu c).del_vless ≡ c.del_vless)
  unfolding enrol_user
  enrol_user_lem nu c = ground (
    arith,
    mem_vless-append v (record { name = nu.uuid; uuid = nu.uuid }) c.add_vless,
    text_beq_iff nu.uuid v,
  )

  retire_lem :
      (next : Map ℤ User) (x : ℤ × User) (st : Changes × UserManager)
      → (mem_text v (retire next x st).0.del_vless
          ≡ mem_text v st.0.del_vless || is_retired next v x.0 x.1)
        × ((retire next x st).0.add_vless ≡ st.0.add_vless)
  unfolding retire
  retire_lem next (id, old) st = ground (arith, retire_user_lem old st.0)

  enrol_lem :
      (enabled : Bool) (clock : Clock) (users : Map ℤ User) (x : ℤ × User)
      (st : Changes × UserManager)
      → (mem_vless v (enrol enabled clock users x st).0.add_vless
          ≡ mem_vless v st.0.add_vless || is_enrolled users v x.0 x.1)
        × ((enrol enabled clock users x st).0.del_vless ≡ st.0.del_vless)
  unfolding enrol
  enrol_lem enabled clock users (id, nu) st = ground (arith, enrol_user_lem nu st.0)

  pub retire_all_lem :
      (next users : Map ℤ User) (st : Changes × UserManager)
      → (mem_text v (retire_all next users st).0.del_vless
          ≡ mem_text v st.0.del_vless || any_entry (is_retired next v) users)
        × ((retire_all next users st).0.add_vless ≡ st.0.add_vless)
  unfolding retire_all
  retire_all_lem next [] st = ground arith
  retire_all_lem next (x ∷ users) st =
      let rest = retire_all_lem next users (retire next x st) in
      let one = retire_lem next x st in
      (
        rest.0
            ∙ ap (λ b. b || any_entry (is_retired next v) users) one.0
            ∙ or_assoc (mem_text v st.0.del_vless) (is_retired next v x.0 x.1)
                (any_entry (is_retired next v) users),
        rest.1 ∙ one.1,
      )

  pub enrol_all_lem :
      (enabled : Bool) (clock : Clock) (users next : Map ℤ User) (st : Changes × UserManager)
      → (mem_vless v (enrol_all enabled clock users next st).0.add_vless
          ≡ mem_vless v st.0.add_vless || any_entry (is_enrolled users v) next)
        × ((enrol_all enabled clock users next st).0.del_vless ≡ st.0.del_vless)
  unfolding enrol_all
  enrol_all_lem enabled clock users [] st = ground arith
  enrol_all_lem enabled clock users (x ∷ next) st =
      let rest = enrol_all_lem enabled clock users next (enrol enabled clock users x st) in
      let one = enrol_lem enabled clock users x st in
      (
        rest.0
            ∙ ap (λ b. b || any_entry (is_enrolled users v) next) one.0
            ∙ or_assoc (mem_vless v st.0.add_vless) (is_enrolled users v x.0 x.1)
                (any_entry (is_enrolled users v) next),
        rest.1 ∙ one.1,
      )
