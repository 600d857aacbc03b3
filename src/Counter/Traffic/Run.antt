-- ===== src/Counter/Traffic/Run.antt =====
-- Sequences of operations on the counters of an inbound (counter/counter.go), on the counters and on
-- the ledger.
use mathlib.Core.Path.{fun_ext}
use mini_sb_xboard_agent.Base.{
  ℕ, ◌≡◌, refl, ap, ◌∙◌, Bool, true, false, some, List, [], ◌∷◌, arith, ◌==◌, if◌then◌else◌,
  Bool-cases, inl, inr,
}
use mini_sb_xboard_agent.Base.Int.{ℤ, pos, ltb_ℤ}
use mini_sb_xboard_agent.Base.Text.{Text, text_eq}
use mini_sb_xboard_agent.Base.Map.{Map, IsMap, lookup}
use mini_sb_xboard_agent.Counter.Traffic.{
  TrafficStorage, TrafficCounter, get_counter, add_up, add_down, change, count_read, count_write,
  commit_snapshot, remove_absent,
}
use mini_sb_xboard_agent.Counter.Traffic.Ledger.{
  IsValid, Ledger, view, or_zero, committed, remaining, get_counter-IsValid, get_counter_lem,
  view-get_counter, view-change, change-IsValid, view-commit_snapshot, commit_snapshot-IsValid,
  view-remove_absent, remove_absent-IsValid,
}

-- What happens to the accounts of an inbound: n bytes are read or written through the storage that a user
-- has at that time, a pushed snapshot is committed, the users are replaced. A connection that was routed
-- before its user was removed has another storage: what it does is in Connections.
pub data Op : Type 0 where
  reads writes : Text → ℤ → Op
  commits : (snap : Map Text (ℤ × ℤ)) → IsMap snap → Op
  removes : Map Text (Unit {0}) → Op

unfoldable pub step : TrafficCounter → Op → TrafficCounter
step c (reads user n) = let r = get_counter user c in count_read r.1 n r.0
step c (writes user n) = let r = get_counter user c in count_write r.1 n r.0
step c (commits snap _) = commit_snapshot snap c
step c (removes active) = remove_absent active c

unfoldable pub run_ops : TrafficCounter → List Op → TrafficCounter
run_ops c [] = c
run_ops c (op ∷ ops) = run_ops (step c op) ops

-- A connection whose pointer is still its user's.
step-kept :
    (c : TrafficCounter) (user : Text) (a : ℕ) (n : ℤ)
    → lookup user c.counters ≡ some a
    → (step c (reads user n) ≡ count_read a n c) × (step c (writes user n) ≡ count_write a n c)
unfolding step get_counter
step-kept c user a n h = rw (step, get_counter, h) (refl, refl)

-- The same on the ledger.
unfoldable pub post : Ledger → Op → Ledger
post f (reads user n) v =
    if user == v
    then some (if ltb_ℤ (pos 0) n then add_up n (or_zero (f v)) else or_zero (f v))
    else f v
post f (writes user n) v =
    if user == v
    then some (if ltb_ℤ (pos 0) n then add_down n (or_zero (f v)) else or_zero (f v))
    else f v
post f (commits snap _) v = committed snap f v
post f (removes active) v = remaining active f v

unfoldable pub replay : Ledger → List Op → Ledger
replay f [] = f
replay f (op ∷ ops) = replay (post f op) ops

module _ (c : TrafficCounter) (valid : IsValid c) (user v : Text) where
  opened_lem :
      view (get_counter user c).0 v ≡ (if user == v then some (or_zero (view c v)) else view c v)
  opened_lem = view-get_counter c valid user v

  changed_lem :
      (g : TrafficStorage → TrafficStorage)
      → view (change g (get_counter user c).1 (get_counter user c).0) v
        ≡ (if user == v then some (g (or_zero (view c v))) else view c v)
  changed_lem g =
      view-change (get_counter user c).0 (get_counter-IsValid c valid user) g user v
        (get_counter user c).1 (get_counter_lem c valid user)
      ∙ ground (arith, opened_lem)

  view-read : (n : ℤ) → view (step c (reads user n)) v ≡ post (view c) (reads user n) v
  unfolding step count_read post
  view-read n = elim (Bool-cases (ltb_ℤ (pos 0) n)) [
    | inl e ↦ rw e (changed_lem (add_up n))
    | inr e ↦ rw e opened_lem
  ]

  view-write : (n : ℤ) → view (step c (writes user n)) v ≡ post (view c) (writes user n) v
  unfolding step count_write post
  view-write n = elim (Bool-cases (ltb_ℤ (pos 0) n)) [
    | inl e ↦ rw e (changed_lem (add_down n))
    | inr e ↦ rw e opened_lem
  ]

counts-IsValid :
    (positive : Bool) (g : TrafficStorage → TrafficStorage) (user : Text) (c : TrafficCounter)
    → IsValid c
    → let r = get_counter user c in IsValid (if positive then change g r.1 r.0 else r.0)
counts-IsValid true g user c valid =
    let r = get_counter user c in change-IsValid r.0 (get_counter-IsValid c valid user) g r.1
counts-IsValid false g user c valid = get_counter-IsValid c valid user

step-IsValid : (c : TrafficCounter) (op : Op) → IsValid c → IsValid (step c op)
unfolding step count_read count_write
step-IsValid c (reads user n) valid = counts-IsValid (ltb_ℤ (pos 0) n) (add_up n) user c valid
step-IsValid c (writes user n) valid = counts-IsValid (ltb_ℤ (pos 0) n) (add_down n) user c valid
step-IsValid c (commits snap u) valid = commit_snapshot-IsValid snap c valid
step-IsValid c (removes active) valid = remove_absent-IsValid active c valid

view-step : (c : TrafficCounter) (op : Op) → IsValid c → view (step c op) ≡ post (view c) op
unfolding post step view
view-step c (reads user n) valid = fun_ext λ v. view-read c valid user v n
view-step c (writes user n) valid = fun_ext λ v. view-write c valid user v n
view-step c (commits snap u) valid = fun_ext λ v. view-commit_snapshot snap c v u valid
view-step c (removes active) valid = fun_ext λ v. view-remove_absent active c valid v

-- From counters in which no two users share a storage, any sequence of reads, writes, commits and
-- removals leaves such counters, and their accounts are those that the ledger gets from the same
-- sequence: no operation touches an account that it is not about.
pub run_refines :
    (ops : List Op) (c : TrafficCounter)
    → IsValid c
    → IsValid (run_ops c ops) × (view (run_ops c ops) ≡ replay (view c) ops)
unfolding run_ops replay
run_refines [] c valid = (valid, refl)
run_refines (op ∷ ops) c valid =
    let (valid', same) = run_refines ops (step c op) (step-IsValid c op valid) in
    (valid', same ∙ ap (λ f. replay f ops) (view-step c op valid))
