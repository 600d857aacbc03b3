-- ===== src/TinyXboard/Store/Users/Enabled.antt =====
-- `EnabledUsers` (tiny-xboard/store.go): what the agents are sent.
use mathlib.Core.List.{Mem, mem-cons_self, mem-cons_of_mem, mem-cons, not-mem-nil}
use mathlib.Core.List.Perm
use mathlib.Core.Logic.Or
use mathlib.Core.Path.{subst}
use native.Mathlib.Decide.{ℕ_discrete}
use mini_sb_xboard_agent.Base.{
  ◌≡◌, sym, ap, ◌∙◌, ◌↔◌, inl, inr, true, none, some, List, [], ◌∷◌, map, arith, select, ◌==◌,
  Bool-cases,
}
use mini_sb_xboard_agent.Base.Int.{ℤ, int_eq, int_beq_iff}
use mini_sb_xboard_agent.Base.Map.{Map, IsMap, AllEntries, lookup}
use mini_sb_xboard_agent.Base.Sort.{IsSortedBy, sort_by-IsSortedBy, sort_by-perm}
use mini_sb_xboard_agent.TinyXboard.Schema.{User}
use mini_sb_xboard_agent.TinyXboard.Store.State.{Store}
use mini_sb_xboard_agent.TinyXboard.Store.Users.{enabled_users}
use mini_sb_xboard_agent.TinyXboard.Store.Users.Invariant.{IsUserEntry, IsValid}

-- The enabled users, in the order in which the map gives them.
abbrev pub candidates : Map ℤ User → List User
candidates users = select (λ u. u.enabled) (map (λ e. e.1) users)

mem_of_lookup :
    (u : User) (id : ℤ) (users : Map ℤ User)
    → lookup id users ≡ some u
    → u.enabled ≡ true
    → Mem u (candidates users)
unfolding lookup select
mem_of_lookup u id [] f e = absurd (ground arith)
mem_of_lookup u id ((i, w) ∷ m) f e = elim (Bool-cases (i == id)) [
  | inl same ↦
      let w-u : w ≡ u = ground arith in
      let on : w.enabled ≡ true = ap (λ x. x.enabled) w-u ∙ e in
      simp on (subst (λ x. Mem u (x ∷ candidates m)) (sym w-u) mem-cons_self)
  | inr other ↦
      let rest = mem_of_lookup u id m (ground arith) e in
      elim (Bool-cases w.enabled) [
        | inl on ↦ simp on (mem-cons_of_mem w rest)
        | inr off ↦ rw off rest
      ]
]

User-discrete : Discrete User
User-discrete = hlevel ℕ_discrete

-- The map gives u for its id, and u is enabled.
abbrev pub IsFound : User → Map ℤ User → Type 0
IsFound u users = (lookup u.id users ≡ some u) × (u.enabled ≡ true)

IsFound-prop : (u : User) (users : Map ℤ User) → IsProp (IsFound u users)
IsFound-prop u users = hlevel User-discrete

IsFound-later :
    (u w : User) (i : ℤ) (users : Map ℤ User)
    → lookup i users ≡ none
    → IsFound u users
    → IsFound u ((i, w) ∷ users)
unfolding lookup
IsFound-later u w i users n (f, e) = (ground (arith, int_beq_iff i u.id), e)

IsFound-first :
    (u w : User) (i : ℤ) (users : Map ℤ User)
    → IsUserEntry i w
    → w.enabled ≡ true
    → u ≡ w
    → IsFound u ((i, w) ∷ users)
unfolding lookup
IsFound-first u w i users k on e = rw e (ground (arith, int_beq_iff i w.id), on)

lookup_of_mem :
    (u : User) (users : Map ℤ User)
    → IsMap users
    → AllEntries IsUserEntry users
    → Mem u (candidates users)
    → IsFound u users
unfolding select
lookup_of_mem u [] n k m = absurd (not-mem-nil m)
lookup_of_mem u ((i, w) ∷ users) n k m = elim (Bool-cases w.enabled) [
  | inl on ↦
      Or.elim (IsFound-prop u ((i, w) ∷ users)) (mem-cons.0 (simp on at m))
        (IsFound-first u w i users k.0 on)
        (λ rest. IsFound-later u w i users n.0 (lookup_of_mem u users n.1 k.1 rest))
  | inr off ↦ IsFound-later u w i users n.0 (lookup_of_mem u users n.1 k.1 (simp off at m))
]

-- In a valid store, a user is on the list that the agents are sent exactly when it is enabled and
-- the store holds it under its id; the list is sorted by id.
pub enabled_users_lem :
    (s : Store)
    → IsValid s
    → IsSortedBy (λ u. u.id) (enabled_users s)
      × ((u : User) → Mem u (enabled_users s) ↔ IsFound u s.users)
unfolding enabled_users
enabled_users_lem s v =
    let sorted = sort_by-perm (λ u. u.id) (candidates s.users) in
    (
      sort_by-IsSortedBy (λ u. u.id) (candidates s.users),
      λ u. (
        λ m.
            lookup_of_mem u s.users v.users_valid.one_each v.users_valid.keyed
              ((Perm.mem_iff sorted).0 m),
        λ f. (Perm.mem_iff sorted).1 (mem_of_lookup u u.id s.users f.0 f.1),
      ),
    )
