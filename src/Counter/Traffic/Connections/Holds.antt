-- ===== src/Counter/Traffic/Connections/Holds.antt =====
-- The pointers that connections hold, through each change of the counters (counter/counter.go).
use mathlib.Core.Path.{subst}
use mini_sb_xboard_agent.Base.{
  ℕ, ◌≡◌, refl, sym, ap, ◌∙◌, false, Option, none, some, List, [], ◌∷◌, ◌++◌, map, arith,
  Bool-cases, Option-cases, inl, inr,
}
use mini_sb_xboard_agent.Base.Int.{ℤ, int_eq}
use mini_sb_xboard_agent.Base.Text.{Text, text_eq, text_beq_iff}
use mini_sb_xboard_agent.Base.Map.{Map, lookup, lookup-put}
use mini_sb_xboard_agent.Counter.Traffic.{
  TrafficCounter, get_counter, change, commit_snapshot, commit_user, remove_absent,
}
use mini_sb_xboard_agent.Counter.Traffic.Ledger.{
  IsValid, Ledger, view, remaining, with_user, get_counter_new, lookup-remove_from, goes,
}
use mini_sb_xboard_agent.Counter.Traffic.Connections.{still, Holds, AllHold}

pub AllHold-append :
    (c : TrafficCounter) (conns : List ℕ) (owners : List (Option Text)) (a : ℕ) (o : Option Text)
    → AllHold c conns owners
    → Holds c a o
    → AllHold c (conns ++ (a ∷ [])) (owners ++ (o ∷ []))
AllHold-append c [] [] a o h k = (k, tt)
AllHold-append c [] (x ∷ owners) a o h k = elim h [ ]
AllHold-append c (x ∷ conns) [] a o h k = elim h [ ]
AllHold-append c (x ∷ conns) (y ∷ owners) a o h k = (h.0, AllHold-append c conns owners a o h.1 k)

pub AllHold-map :
    (c c' : TrafficCounter) (g : Option Text → Option Text) (conns : List ℕ)
    (owners : List (Option Text))
    → ((a : ℕ) (o : Option Text) → Holds c a o → Holds c' a (g o))
    → AllHold c conns owners
    → AllHold c' conns (map g owners)
AllHold-map c c' g [] [] k h = tt
AllHold-map c c' g [] (x ∷ owners) k h = elim h [ ]
AllHold-map c c' g (x ∷ conns) [] k h = elim h [ ]
AllHold-map c c' g (x ∷ conns) (y ∷ owners) k h = (k x y h.0, AllHold-map c c' g conns owners k h.1)

map_same : (owners : List (Option Text)) → map (λ o. o) owners ≡ owners
map_same [] = refl
map_same (o ∷ owners) = ap (λ l. o ∷ l) (map_same owners)

pub AllHold-same :
    (c c' : TrafficCounter) (conns : List ℕ) (owners : List (Option Text))
    → ((a : ℕ) (o : Option Text) → Holds c a o → Holds c' a o)
    → AllHold c conns owners
    → AllHold c' conns owners
AllHold-same c c' conns owners k h =
    subst (AllHold c' conns) (map_same owners) (AllHold-map c c' (λ o. o) conns owners k h)

pub Holds-eq :
    (c c' : TrafficCounter) (a : ℕ) (o : Option Text)
    → c'.counters ≡ c.counters
    → c'.next ≡ c.next
    → Holds c a o
    → Holds c' a o
Holds-eq c c' a (some user) ec en h = (ground (arith, h.0), ap (lookup user) ec ∙ h.1)
Holds-eq c c' a none ec en h = (ground (arith, h.0), λ v e. h.1 v (ap (lookup v) (sym ec) ∙ e))

Holds-with_user :
    (c : TrafficCounter) (valid : IsValid c) (user : Text) (a : ℕ) (o : Option Text)
    → lookup user c.counters ≡ none
    → Holds c a o
    → Holds (with_user c valid user) a o
unfolding with_user
Holds-with_user c valid user a (some v) new h =
    (omega arith, ground (arith, lookup-put v user c.next c.counters, text_beq_iff user v, h.1))
Holds-with_user c valid user a none new h = (
  omega arith,
  λ v e. ground (arith, lookup-put v user c.next c.counters, text_beq_iff user v, h.0, h.1 v),
)

-- Routing, on the pointers that are held.
pub Holds-get_counter :
    (c : TrafficCounter) (valid : IsValid c) (user : Text) (a : ℕ) (o : Option Text)
    → Holds c a o
    → Holds (get_counter user c).0 a o
unfolding get_counter with_user
Holds-get_counter c valid user a o h = elim (Option-cases (lookup user c.counters)) [
  | inr (b, old) ↦ rw (get_counter, old) h
  | inl new ↦
      subst (λ x. Holds x.0 a o) (sym (get_counter_new c valid user new))
        (Holds-with_user c valid user a o new h)
]

counters-commit_user :
    (user : Text) (d : ℤ × ℤ) (c : TrafficCounter)
    → ((commit_user user d c).counters ≡ c.counters) × ((commit_user user d c).next ≡ c.next)
unfolding commit_user change
counters-commit_user user d c = elim (Option-cases (lookup user c.counters)) [
  | inl missing ↦ rw (commit_user, missing) (refl, refl)
  | inr (a, found) ↦ rw (commit_user, found) (refl, refl)
]

pub counters-commit_snapshot :
    (snap : Map Text (ℤ × ℤ)) (c : TrafficCounter)
    → ((commit_snapshot snap c).counters ≡ c.counters) × ((commit_snapshot snap c).next ≡ c.next)
unfolding commit_snapshot
counters-commit_snapshot [] c = (refl, refl)
counters-commit_snapshot ((user, d) ∷ snap) c =
    let (first, first') = counters-commit_user user d c in
    let (rest, rest') = counters-commit_snapshot snap (commit_user user d c) in
    (rest ∙ first, rest' ∙ first')

-- A removal, on the pointers that are held.
module _ (active : Map Text (Unit {0})) (c : TrafficCounter) (valid : IsValid c) (f : Ledger)
    (accounts : view c ≡ f) where
  found_again :
      (v : Text) (a : ℕ)
      → lookup v (remove_absent active c).counters ≡ some a
      → (lookup v c.counters ≡ some a) × (goes c.heap active v a ≡ false)
  unfolding remove_absent
  found_again v a h = ground (arith, lookup-remove_from c.heap active v c.counters valid.one_each)

  known : (user : Text) (a : ℕ) → lookup user c.counters ≡ some a → f user ≡ some (c.heap a)
  unfolding view
  known user a h = ap (λ g. g user) (sym accounts) ∙ rw (view, h) refl

  pub Holds-remove_absent :
      (a : ℕ) (o : Option Text)
      → Holds c a o
      → Holds (remove_absent active c) a (still (remaining active f) o)
  unfolding remove_absent goes
  Holds-remove_absent a none h = (h.0, λ v e. h.1 v (found_again v a e).0)
  Holds-remove_absent a (some user) h = elim (Bool-cases (goes c.heap active user a)) [
    | inl gone ↦
        let lost : still (remaining active f) (some user) ≡ none =
          ground (arith, known user a h.1) in
        subst (Holds (remove_absent active c) a) (sym lost) (
          h.0,
          λ v e.
              let (before, kept) = found_again v a e in
              absurd (ground (arith, valid.apart user v a h.1 before, gone, kept)),
        )
    | inr kept ↦
        let owned : still (remaining active f) (some user) ≡ some user =
          ground (arith, known user a h.1) in
        subst (Holds (remove_absent active c) a) (sym owned) (
          h.0,
          ground (arith, lookup-remove_from c.heap active user c.counters valid.one_each, h.1),
        )
  ]
