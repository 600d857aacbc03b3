-- ===== src/Counter/Traffic/Ledger.antt =====
-- The traffic counters as a ledger: a function from users to their accounts, without pointers
-- (counter/counter.go).
use mini_sb_xboard_agent.Base.{
  ℕ, ◌+◌, ◌<◌, ◌≡◌, refl, ◌∙◌, Bool, not, ◌&&◌, Option, none, some, [], ◌∷◌, arith, nat_beq,
  nat_beq_iff, ◌==◌, if◌then◌else◌, Bool-cases, Option-cases, inl, inr,
}
use mini_sb_xboard_agent.Base.Int.{ℤ, int_eq}
use mini_sb_xboard_agent.Base.Text.{Text, text_eq, text_beq_iff}
use mini_sb_xboard_agent.Base.Map.{Map, IsMap, lookup, contains, put, lookup-put, put-IsMap}
use mini_sb_xboard_agent.Counter.Traffic.{
  TrafficStorage, zero_storage, TrafficCounter, new_traffic_counter, update, get_counter, change,
  commit_storage, commit_user, commit_snapshot, is_settled, remove_from, remove_absent,
}

-- Every pointer was handed out, and no two users share one.
pub record IsValid (c : TrafficCounter) : Type 0 where
  pub one_each : IsMap c.counters
  pub below : (user : Text) (a : ℕ) → lookup user c.counters ≡ some a → a < c.next
  pub apart :
      (u v : Text) (a : ℕ) → lookup u c.counters ≡ some a → lookup v c.counters ≡ some a → u ≡ v

abbrev pub Ledger : Type 0
Ledger = Text → Option TrafficStorage

-- The account of a user.
unfoldable pub view : TrafficCounter → Ledger
view c user = elim (lookup user c.counters) [ none ↦ none | some a ↦ some (c.heap a) ]

abbrev pub or_zero : Option TrafficStorage → TrafficStorage
or_zero none = zero_storage
or_zero (some s) = s

abbrev pub opened : Text → Ledger → Ledger
opened user f v = if user == v then some (or_zero (f v)) else f v

abbrev pub map_account :
    (TrafficStorage → TrafficStorage) → Option TrafficStorage → Option TrafficStorage
map_account g none = none
map_account g (some s) = some (g s)

abbrev pub changed : (TrafficStorage → TrafficStorage) → Text → Ledger → Ledger
changed g user f v = if user == v then map_account g (f v) else f v

abbrev pub committed : Map Text (ℤ × ℤ) → Ledger → Ledger
committed snap f v = elim (lookup v snap) [
  | none ↦ f v
  | some d ↦ map_account (commit_storage d) (f v)
]

abbrev pub keep_account : Bool → Option TrafficStorage → Option TrafficStorage
keep_account active none = none
keep_account active (some s) = if not active && is_settled s then none else some s

abbrev pub remaining : Map Text (Unit {0}) → Ledger → Ledger
remaining active f v = keep_account (contains v active) (f v)

module _ (c : TrafficCounter) (valid : IsValid c) where
  pub view-get_counter : (user v : Text) → view (get_counter user c).0 v ≡ opened user (view c) v
  unfolding view get_counter
  view-get_counter user v = elim (Option-cases (lookup user c.counters)) [
    | inr (a, old) ↦ ground (arith, text_beq_iff user v)
    | inl new ↦ elim (Option-cases (lookup v c.counters)) [
      | inl missing ↦ ground (arith, lookup-put v user c.next c.counters, text_beq_iff user v)
      | inr (a, found) ↦
          ground
            (arith, lookup-put v user c.next c.counters, text_beq_iff user v, valid.below v a found)
    ]
  ]

  get_counter_old :
      (user : Text) (a : ℕ) → lookup user c.counters ≡ some a → get_counter user c ≡ (c, a)
  unfolding get_counter
  get_counter_old user a old = rw (get_counter, old) refl

  unfoldable pub with_user : Text → TrafficCounter
  with_user user = record {
    counters = put user c.next c.counters;
    heap = update c.heap c.next zero_storage;
    next = c.next + 1;
  }

  pub get_counter_new :
      (user : Text) → lookup user c.counters ≡ none → get_counter user c ≡ (with_user user, c.next)
  unfolding get_counter with_user
  get_counter_new user new = rw (get_counter, new) refl

  with_user-IsValid : (user : Text) → lookup user c.counters ≡ none → IsValid (with_user user)
  unfolding with_user
  with_user-IsValid user new = record {
    one_each = put-IsMap user c.next c.counters valid.one_each;
    below = λ v a h. ground (arith, lookup-put v user c.next c.counters, valid.below v a);
    apart = λ u v a hu hv. ground (
      arith,
      lookup-put u user c.next c.counters,
      lookup-put v user c.next c.counters,
      text_beq_iff user u,
      text_beq_iff user v,
      valid.below u a,
      valid.below v a,
      valid.apart u v a,
    );
  }

  pub get_counter-IsValid : (user : Text) → IsValid (get_counter user c).0
  get_counter-IsValid user = elim (Option-cases (lookup user c.counters)) [
    | inr (a, old) ↦ rw (get_counter_old user a old) valid
    | inl new ↦ rw (get_counter_new user new) (with_user-IsValid user new)
  ]

  pub get_counter_lem :
      (user : Text) → lookup user (get_counter user c).0.counters ≡ some (get_counter user c).1
  unfolding get_counter
  get_counter_lem user = elim (Option-cases (lookup user c.counters)) [
    | inr (a, old) ↦ ground arith
    | inl new ↦ ground (arith, lookup-put user user c.next c.counters, text_beq_iff user user)
  ]

  pub view-change :
      (g : TrafficStorage → TrafficStorage) (user v : Text) (a : ℕ)
      → lookup user c.counters ≡ some a
      → view (change g a c) v ≡ changed g user (view c) v
  unfolding view change
  view-change g user v a h = elim (Option-cases (lookup v c.counters)) [
    | inl missing ↦ ground (arith, text_beq_iff user v)
    | inr (b, found) ↦ elim (Bool-cases (nat_beq a b)) [
      | inl same ↦ ground (arith, text_beq_iff user v, nat_beq_iff a b, valid.apart user v a h)
      | inr other ↦ ground (arith, text_beq_iff user v, nat_beq_iff a b)
    ]
  ]

  pub change-IsValid : (g : TrafficStorage → TrafficStorage) (a : ℕ) → IsValid (change g a c)
  unfolding change
  change-IsValid g a = record {
    one_each = valid.one_each;
    below = valid.below;
    apart = valid.apart;
  }

  pub commit_user-IsValid : (user : Text) (d : ℤ × ℤ) → IsValid (commit_user user d c)
  unfolding commit_user
  commit_user-IsValid user d = elim (Option-cases (lookup user c.counters)) [
    | inl missing ↦ rw (commit_user, missing) valid
    | inr (a, found) ↦ rw (commit_user, found) (change-IsValid (commit_storage d) a)
  ]

  view-missing :
      (g : TrafficStorage → TrafficStorage) (user v : Text)
      → lookup user c.counters ≡ none
      → view c v ≡ changed g user (view c) v
  unfolding view
  view-missing g user v missing = ground (arith, text_beq_iff user v)

  view-commit_user :
      (user v : Text) (d : ℤ × ℤ)
      → view (commit_user user d c) v ≡ changed (commit_storage d) user (view c) v
  unfolding commit_user
  view-commit_user user v d = elim (Option-cases (lookup user c.counters)) [
    | inl missing ↦ rw (commit_user, missing) (view-missing (commit_storage d) user v missing)
    | inr (a, found) ↦ rw (commit_user, found) (view-change (commit_storage d) user v a found)
  ]

-- What `CommitSnapshot` does to one account.
pub view-commit_snapshot :
    (snap : Map Text (ℤ × ℤ)) (c : TrafficCounter) (v : Text)
    → IsMap snap
    → IsValid c
    → view (commit_snapshot snap c) v ≡ committed snap (view c) v
unfolding commit_snapshot lookup
view-commit_snapshot [] c v u valid = refl
view-commit_snapshot ((user, d) ∷ snap) c v u valid =
    view-commit_snapshot snap (commit_user user d c) v u.1 (commit_user-IsValid c valid user d)
    ∙ ground (arith, view-commit_user c valid user v d, text_beq_iff user v)

pub commit_snapshot-IsValid :
    (snap : Map Text (ℤ × ℤ)) (c : TrafficCounter) → IsValid c → IsValid (commit_snapshot snap c)
unfolding commit_snapshot
commit_snapshot-IsValid [] c valid = valid
commit_snapshot-IsValid ((user, d) ∷ snap) c valid =
    commit_snapshot-IsValid snap (commit_user user d c) (commit_user-IsValid c valid user d)

module _ (heap : ℕ → TrafficStorage) (active : Map Text (Unit {0})) where
  unfoldable pub goes : Text → ℕ → Bool
  goes user a = not (contains user active) && is_settled (heap a)

  pub lookup-remove_from :
      (v : Text) (m : Map Text ℕ)
      → IsMap m
      → lookup v (remove_from heap active m)
        ≡ (elim (lookup v m) [ none ↦ none | some a ↦ if goes v a then none else some a ])
  unfolding lookup remove_from goes
  lookup-remove_from v [] u = refl
  lookup-remove_from v ((user, a) ∷ m) u =
      ground (arith, lookup-remove_from v m u.1, text_beq_iff user v)

  pub remove_from-IsMap : (m : Map Text ℕ) → IsMap m → IsMap (remove_from heap active m)
  unfolding remove_from
  remove_from-IsMap [] u = tt
  remove_from-IsMap ((user, a) ∷ m) u =
      ground (arith, lookup-remove_from user m u.1, remove_from-IsMap m u.1)

module _ (active : Map Text (Unit {0})) (c : TrafficCounter) (valid : IsValid c) where
  pub view-remove_absent :
      (v : Text) → view (remove_absent active c) v ≡ remaining active (view c) v
  unfolding view remove_absent goes
  view-remove_absent v =
      rw (view, lookup-remove_from c.heap active v c.counters valid.one_each)
        (elim (Option-cases (lookup v c.counters)) [
          | inl missing ↦ ground arith
          | inr (a, found) ↦ ground arith
        ])

  found_before :
      (v : Text) (a : ℕ)
      → lookup v (remove_absent active c).counters ≡ some a
      → lookup v c.counters ≡ some a
  unfolding remove_absent
  found_before v a h = ground (arith, lookup-remove_from c.heap active v c.counters valid.one_each)

  pub remove_absent-IsValid : IsValid (remove_absent active c)
  unfolding remove_absent
  remove_absent-IsValid = record {
    one_each = remove_from-IsMap c.heap active c.counters valid.one_each;
    below = λ v a h. valid.below v a (found_before v a h);
    apart = λ u v a hu hv. valid.apart u v a (found_before u a hu) (found_before v a hv);
  }

pub new_traffic_counter-IsValid : IsValid new_traffic_counter
unfolding lookup
new_traffic_counter-IsValid = record {
  one_each = tt;
  below = λ user a h. absurd (ground arith);
  apart = λ u v a h h'. absurd (ground arith);
}
