-- ===== src/Counter/Traffic/Orphan.antt =====
-- Connections that stay open when `RemoveAbsent` drops their user's counters (counter/counter.go).
use mini_sb_xboard_agent.Base.{
  ℕ, ◌≡◌, ◌≢◌, refl, ap, Bool, true, false, none, some, [], ◌∷◌, arith, nat_beq, nat_beq_iff,
  if◌then◌else◌, Bool-cases, inl, inr,
}
use mini_sb_xboard_agent.Base.Int.{ℤ, pos, ltb_ℤ}
use mini_sb_xboard_agent.Base.Text.{Text, text_eq, text_beq_iff}
use mini_sb_xboard_agent.Base.Map.{Map, IsMap, AllEntries, lookup, contains}
use mini_sb_xboard_agent.Counter.Traffic.{
  TrafficStorage, TrafficCounter, update, get_counter, add_up, add_down, change, count_read,
  count_write, delta_of, is_positive, delta_from, snapshot_delta, is_settled, remove_absent,
}
use mini_sb_xboard_agent.Counter.Traffic.Ledger.{
  IsValid, lookup-remove_from, remove_absent-IsValid, get_counter_new, goes,
}

-- No user of the map has the pointer.
abbrev IsLost : ℕ → Map Text ℕ → Type 0
IsLost a m = AllEntries (λ _ b. b ≢ a) m

IsLost-lookup : (a : ℕ) (m : Map Text ℕ) → IsMap m → ((v : Text) → lookup v m ≢ some a) → IsLost a m
unfolding lookup
IsLost-lookup a [] u h = tt
IsLost-lookup a ((user, b) ∷ m) u h = (
  (λ e. h user (ground (arith, text_beq_iff user user))),
  IsLost-lookup a m u.1 (λ v f. h v (ground (arith, text_beq_iff user v))),
)

update_other :
    (heap : ℕ → TrafficStorage) (a b : ℕ) (s : TrafficStorage) → b ≢ a → update heap a s b ≡ heap b
update_other heap a b s n = elim (Bool-cases (nat_beq a b)) [
  | inl same ↦ absurd (ground (arith, nat_beq_iff a b))
  | inr other ↦ rw other refl
]

delta_from-update :
    (heap : ℕ → TrafficStorage) (a : ℕ) (s : TrafficStorage) (m : Map Text ℕ)
    → IsLost a m
    → delta_from (update heap a s) m ≡ delta_from heap m
unfolding delta_from
delta_from-update heap a s [] lost = refl
delta_from-update heap a s ((user, b) ∷ m) lost = rw (delta_from-update heap a s m lost.1) (
    ap
      (λ t.
        if is_positive (delta_of t)
        then (user, delta_of t) ∷ delta_from heap m
        else delta_from heap m)
      (update_other heap a b s lost.0))

module _ (active : Map Text (Unit {0})) (c : TrafficCounter) (user : Text) (a : ℕ)
    (valid : IsValid c) (held : lookup user c.counters ≡ some a)
    (gone : contains user active ≡ false) (settled : is_settled (c.heap a) ≡ true) where
  left : TrafficCounter
  left = remove_absent active c

  not_found : (v : Text) → lookup v left.counters ≢ some a
  unfolding left remove_absent goes
  not_found v h = ground (
    arith,
    lookup-remove_from c.heap active v c.counters valid.one_each,
    valid.apart user v a held,
  )

  lost : IsLost a left.counters
  unfolding left
  lost = IsLost-lookup a left.counters (remove_absent-IsValid active c valid).one_each not_found

  counts_nothing :
      (positive : Bool) (g : TrafficStorage → TrafficStorage)
      → snapshot_delta (if positive then change g a left else left) ≡ snapshot_delta left
  unfolding snapshot_delta change
  counts_nothing true g = delta_from-update left.heap a (g (left.heap a)) left.counters lost
  counts_nothing false g = refl

  dropped : lookup user left.counters ≡ none
  unfolding left remove_absent goes
  dropped = ground (arith, lookup-remove_from c.heap active user c.counters valid.one_each)

  another : (get_counter user left).1 ≢ a
  unfolding left remove_absent
  another e = ground (
    arith,
    ap (λ r. r.1) (get_counter_new left (remove_absent-IsValid active c valid) user dropped),
    valid.below user a held,
  )

  -- When `RemoveAbsent` drops a user whose traffic is all committed, a connection of that user that is
  -- still open holds a storage that no snapshot reports any more: whatever it reads or writes is in
  -- no snapshot, and a new connection of the user gets another storage.
  pub orphan_uncounted :
      (n : ℤ)
      → (snapshot_delta (count_read a n (remove_absent active c))
          ≡ snapshot_delta (remove_absent active c))
        × (snapshot_delta (count_write a n (remove_absent active c))
            ≡ snapshot_delta (remove_absent active c))
        × ((get_counter user (remove_absent active c)).1 ≢ a)
  unfolding count_read count_write left
  orphan_uncounted n = (
    counts_nothing (ltb_ℤ (pos 0) n) (add_up n),
    counts_nothing (ltb_ℤ (pos 0) n) (add_down n),
    another,
  )
