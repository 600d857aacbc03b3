-- ===== src/Counter/Traffic/Connections/Account.antt =====
-- The account of a user while connections come and go (counter/counter.go).
use mini_sb_xboard_agent.Base.{
  ℕ, ◌+◌, ◌≤◌, ◌≡◌, refl, ap, ◌∙◌, Bool, true, false, not, ◌&&◌, ◌||◌, Option, none, some, List, [],
  ◌∷◌, All, arith, ltb, ◌==◌, nat_beq, nat_beq_iff, if◌then◌else◌, Bool-cases, Option-cases, inl,
  inr,
}
use mini_sb_xboard_agent.Base.Int.{ℤ, pos, pos_part, ltb_ℤ, max_int64}
use mini_sb_xboard_agent.Base.Text.{Text, text_eq}
use mini_sb_xboard_agent.Base.Map.{Map, lookup, contains}
use mini_sb_xboard_agent.Counter.Traffic.{
  TrafficStorage, TrafficCounter, get_counter, add_up, add_down, change, count_read, count_write,
  is_settled, snapshot_delta, remove_absent,
}
use mini_sb_xboard_agent.Counter.Traffic.Ledger.{
  IsValid, view, or_zero, keep_account, get_counter-IsValid, view-get_counter, change-IsValid,
  view-remove_absent, remove_absent-IsValid,
}
use mini_sb_xboard_agent.Counter.Traffic.Push.{
  account, read_exact, write_exact, reported-account, lookup-snapshot_delta,
}
use mini_sb_xboard_agent.Counter.Traffic.Connections.{
  Event, routed, conn_reads, conn_writes, committed_all, removed, nth, through, Served, act,
  act_all,
}
use mini_sb_xboard_agent.Counter.Traffic.Connections.Pushes.{
  has_pointer, pointed, read_by, written_by, in_events, pending,
}

-- Routed connections, reads and writes.
abbrev pub IsTraffic : Event → Type 0
IsTraffic (committed_all snap u) = ⊥
IsTraffic (removed active) = ⊥
IsTraffic _ = Unit

module _ (v : Text) where
  -- The account of the user: p and r bytes committed, q and s bytes on top of them.
  pub record At (p q r s : ℕ) (c : TrafficCounter) : Type 0 where
    pub valid : IsValid c
    pub holds : or_zero (view c v) ≡ account p q r s

  view-change_at :
      (g : TrafficStorage → TrafficStorage) (a : ℕ) (c : TrafficCounter)
      → or_zero (view (change g a c) v)
        ≡ (if has_pointer v a c then g (or_zero (view c v)) else or_zero (view c v))
  unfolding view change
  view-change_at g a c = elim (Option-cases (lookup v c.counters)) [
    | inl missing ↦ ground (arith, missing)
    | inr (b, found) ↦ elim (Bool-cases (nat_beq a b)) [
      | inl same ↦ ground (arith, same, found, nat_beq_iff a b)
      | inr other ↦ ground (arith, other, found)
    ]
  ]

  same_either : {A : Type 0} (b : Bool) (t : A) → t ≡ (if b then t else t)
  same_either true t = refl
  same_either false t = refl

  -- What a read or a write does to the account.
  counts : Bool → Bool → (TrafficStorage → TrafficStorage) → TrafficStorage → TrafficStorage
  counts mine positive g t = if mine then (if positive then g t else t) else t

  view-counted :
      (positive : Bool) (g : TrafficStorage → TrafficStorage) (a : ℕ) (c : TrafficCounter)
      → or_zero (view (if positive then change g a c else c) v)
        ≡ counts (has_pointer v a c) positive g (or_zero (view c v))
  unfolding counts
  view-counted true g a c = view-change_at g a c
  view-counted false g a c = same_either (has_pointer v a c) (or_zero (view c v))

  counted-IsValid :
      (g : TrafficStorage → TrafficStorage) (n : ℤ) (a : ℕ) (c : TrafficCounter)
      → IsValid c
      → IsValid (if ltb_ℤ (pos 0) n then change g a c else c)
  counted-IsValid g n a c valid = elim (Bool-cases (ltb_ℤ (pos 0) n)) [
    | inl some_bytes ↦ rw some_bytes (change-IsValid c valid g a)
    | inr no_bytes ↦ rw no_bytes valid
  ]

  module _ (p q r s : ℕ) where
    read_if :
        (mine : Bool) (n : ℤ)
        → p + (q + (if mine then pos_part n else 0)) ≤ max_int64
        → counts mine (ltb_ℤ (pos 0) n) (add_up n) (account p q r s)
          ≡ account p (q + (if mine then pos_part n else 0)) r s
    unfolding counts
    read_if true n fits = read_exact p q r s n fits
    read_if false n fits = ground arith

    write_if :
        (mine : Bool) (n : ℤ)
        → r + (s + (if mine then pos_part n else 0)) ≤ max_int64
        → counts mine (ltb_ℤ (pos 0) n) (add_down n) (account p q r s)
          ≡ account p q r (s + (if mine then pos_part n else 0))
    unfolding counts
    write_if true n fits = write_exact p q r s n fits
    write_if false n fits = ground arith

    module _ (c : TrafficCounter) (at : At p q r s c) (n : ℤ) where
      pub At-read :
          (o : Option ℕ)
          → let b = if pointed v o c then pos_part n else 0 in
            p + (q + b) ≤ max_int64 → At p (q + b) r s (through (λ a. count_read a n) o c)
      unfolding count_read
      At-read none fits = record { valid = at.valid; holds = at.holds ∙ ground arith }
      At-read (some a) fits = record {
        valid = counted-IsValid (add_up n) n a c at.valid;
        holds =
            view-counted (ltb_ℤ (pos 0) n) (add_up n) a c
            ∙ ap (counts (has_pointer v a c) (ltb_ℤ (pos 0) n) (add_up n)) at.holds
            ∙ read_if (has_pointer v a c) n fits;
      }

      pub At-write :
          (o : Option ℕ)
          → let d = if pointed v o c then pos_part n else 0 in
            r + (s + d) ≤ max_int64 → At p q r (s + d) (through (λ a. count_write a n) o c)
      unfolding count_write
      At-write none fits = record { valid = at.valid; holds = at.holds ∙ ground arith }
      At-write (some a) fits = record {
        valid = counted-IsValid (add_down n) n a c at.valid;
        holds =
            view-counted (ltb_ℤ (pos 0) n) (add_down n) a c
            ∙ ap (counts (has_pointer v a c) (ltb_ℤ (pos 0) n) (add_down n)) at.holds
            ∙ write_if (has_pointer v a c) n fits;
      }

  opened_same :
      (mine : Bool) (o : Option TrafficStorage)
      → or_zero (if mine then some (or_zero o) else o) ≡ or_zero o
  opened_same true o = refl
  opened_same false o = refl

  pub At-routed :
      (user : Text) (p q r s : ℕ) (c : TrafficCounter)
      → At p q r s c
      → At p q r s (get_counter user c).0
  At-routed user p q r s c at = record {
    valid = get_counter-IsValid c at.valid user;
    holds =
        ap or_zero (view-get_counter c at.valid user v)
        ∙ opened_same (user == v) (view c v)
        ∙ at.holds;
  }

  -- An account that is removed has nothing that was not committed.
  kept_or_settled :
      (active : Bool) (o : Option TrafficStorage) (p q r s : ℕ)
      → or_zero o ≡ account p q r s
      → (p' : ℕ) × (r' : ℕ) × (p' ≤ p)
        × (r' ≤ r)
        × (or_zero (keep_account active o) ≡ account p' q r' s)
  kept_or_settled active none p q r s e = (p, r, (omega arith), (omega arith), e)
  kept_or_settled active (some a) p q r s e = elim (Bool-cases (not active && is_settled a)) [
    | inr stays ↦ (p, r, (omega arith), (omega arith), rw (keep_account, stays) e)
    | inl gone ↦
        let settled : is_settled (account p q r s) ≡ true = ground (arith, e) in
        let none_up : q ≡ 0 = ground arith in
        let none_down : s ≡ 0 = ground arith in
        (0, 0, (omega arith), (omega arith), rw (keep_account, gone, none_up, none_down) refl)
  ]

  pub At-removed :
      (active : Map Text (Unit {0})) (p q r s : ℕ) (c : TrafficCounter)
      → At p q r s c
      → (p' : ℕ) × (r' : ℕ) × (p' ≤ p) × (r' ≤ r) × At p' q r' s (remove_absent active c)
  At-removed active p q r s c at =
      let (p', r', lp, lr, e) = kept_or_settled (contains v active) (view c v) p q r s at.holds in
      (
        p',
        r',
        lp,
        lr,
        record {
          valid = remove_absent-IsValid active c at.valid;
          holds = ap or_zero (view-remove_absent active c at.valid v) ∙ e;
        },
      )

  pub At-eq :
      {q q' s s' : ℕ} (p r : ℕ) {c : TrafficCounter}
      → q ≡ q'
      → s ≡ s'
      → At p q r s c
      → At p q' r s' c
  At-eq {q} {q'} {s} {s'} p r e f at = record {
    valid = at.valid;
    holds = at.holds ∙ ap (λ m. account p m r s) e ∙ ap (λ m. account p q' r m) f;
  }

  -- Traffic, event by event.
  pub At-traffic :
      (es : List Event) (p q r s : ℕ) (x : Served)
      → All IsTraffic es
      → At p q r s x.counter
      → p + (q + in_events (read_by v) x es) ≤ max_int64
      → r + (s + in_events (written_by v) x es) ≤ max_int64
      → At p
          (q + in_events (read_by v) x es)
          r
          (s + in_events (written_by v) x es)
          (act_all x es).counter
  unfolding act_all in_events act
  At-traffic [] p q r s x t at fu fd = At-eq p r (omega arith) (omega arith) at
  At-traffic (routed user ∷ es) p q r s x t at fu fd = At-eq p r (omega arith) (omega arith) (
      At-traffic es p q r s (act x (routed user)) t.1 (At-routed user p q r s x.counter at)
        (omega arith) (omega arith))
  At-traffic (conn_reads i n ∷ es) p q r s x t at fu fd =
      let b = read_by v x (conn_reads i n) in
      let first = At-read p q r s x.counter at n (nth i x.conns) (omega arith) in
      At-eq p r (omega arith) (omega arith)
        (At-traffic es p (q + b) r s (act x (conn_reads i n)) t.1 first (omega arith) (omega arith))
  At-traffic (conn_writes i n ∷ es) p q r s x t at fu fd =
      let d = written_by v x (conn_writes i n) in
      let first = At-write p q r s x.counter at n (nth i x.conns) (omega arith) in
      At-eq p r (omega arith) (omega arith) (
        At-traffic es p q r (s + d) (act x (conn_writes i n)) t.1 first (omega arith) (omega arith))
  At-traffic (committed_all snap u ∷ es) p q r s x t at fu fd = elim t.0 [ ]
  At-traffic (removed active ∷ es) p q r s x t at fu fd = elim t.0 [ ]

  -- What the next snapshot has.
  module _ (p q r s : ℕ) (x : Served) (at : At p q r s x.counter) (fu : p + q ≤ max_int64)
      (fd : r + s ≤ max_int64) where
    pub snapshot_has :
        lookup v (snapshot_delta x.counter)
        ≡ (if ltb 0 q || ltb 0 s then some (pos q, pos s) else none)
    snapshot_has =
        lookup-snapshot_delta x.counter v at.valid
        ∙ reported-account p q r s fu fd (view x.counter v) at.holds

    pub pending_up : pending (λ d. d.0) v x ≡ q
    pending_up = rw snapshot_has (ground arith)

    pub pending_down : pending (λ d. d.1) v x ≡ s
    pending_down = rw snapshot_has (ground arith)
