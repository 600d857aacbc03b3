-- ===== src/Counter/Traffic/Push.antt =====
-- One push of the traffic of an inbound: `SnapshotDelta`, the push, `CommitSnapshot`, with traffic
-- going on in between (counter/counter.go).
use mini_sb_xboard_agent.Base.{
  ℕ, ◌+◌, ◌≤◌, ◌≡◌, refl, ap, ◌∙◌, true, ◌||◌, Option, none, some, List, [], ◌∷◌, arith, All, ltb,
  ◌==◌, if◌then◌else◌, Bool-cases, Option-cases, inl, inr,
}
use mini_sb_xboard_agent.Base.Int.{ℤ, pos, negsuc, pos_part, ltb_ℤ, add64, sub64, max_int64}
use mini_sb_xboard_agent.Base.Text.{Text, text_eq, text_beq_iff}
use mini_sb_xboard_agent.Base.Map.{Map, IsMap, lookup}
use mini_sb_xboard_agent.Counter.Traffic.{
  TrafficStorage, TrafficCounter, add_up, add_down, delta_of, is_positive, delta_from,
  snapshot_delta, commit_storage, commit_snapshot,
}
use mini_sb_xboard_agent.Counter.Traffic.Ledger.{
  IsValid, Ledger, view, or_zero, map_account, committed, view-commit_snapshot,
  commit_snapshot-IsValid,
}
use mini_sb_xboard_agent.Counter.Traffic.Run.{
  Op, reads, writes, commits, removes, run_ops, post, replay, run_refines,
}

abbrev report : ℤ × ℤ → Option (ℤ × ℤ)
report d = if is_positive d then some d else none

-- What `SnapshotDelta` reports of an account.
abbrev pub reported : Option TrafficStorage → Option (ℤ × ℤ)
reported none = none
reported (some s) = report (delta_of s)

lookup-delta_from :
    (heap : ℕ → TrafficStorage) (v : Text) (m : Map Text ℕ)
    → IsMap m
    → lookup v (delta_from heap m)
      ≡ (elim (lookup v m) [ none ↦ none | some a ↦ reported (some (heap a)) ])
unfolding lookup delta_from
lookup-delta_from heap v [] u = refl
lookup-delta_from heap v ((user, a) ∷ m) u = elim (Bool-cases (is_positive (delta_of (heap a)))) [
  | inl e ↦ ground (arith, lookup-delta_from heap v m u.1, text_beq_iff user v)
  | inr e ↦ ground (arith, lookup-delta_from heap v m u.1, text_beq_iff user v)
]

delta_from-IsMap :
    (heap : ℕ → TrafficStorage) (m : Map Text ℕ) → IsMap m → IsMap (delta_from heap m)
unfolding delta_from
delta_from-IsMap heap [] u = tt
delta_from-IsMap heap ((user, a) ∷ m) u =
    ground (arith, lookup-delta_from heap user m u.1, delta_from-IsMap heap m u.1)

pub snapshot_delta-IsMap : (c : TrafficCounter) → IsValid c → IsMap (snapshot_delta c)
unfolding snapshot_delta
snapshot_delta-IsMap c valid = delta_from-IsMap c.heap c.counters valid.one_each

pub lookup-snapshot_delta :
    (c : TrafficCounter) (v : Text) → IsValid c → lookup v (snapshot_delta c) ≡ reported (view c v)
unfolding snapshot_delta view
lookup-snapshot_delta c v valid =
    rw (lookup-delta_from c.heap v c.counters valid.one_each)
      (elim (Option-cases (lookup v c.counters)) [
        | inl missing ↦ rw (view, missing) refl
        | inr (a, found) ↦ rw (view, found) refl
      ])

add64_pos : (a b : ℕ) → a + b ≤ max_int64 → add64 (pos a) (pos b) ≡ pos (a + b)
unfolding add64
add64_pos a b h = ground arith

sub64_pos : (a b : ℕ) → a + b ≤ max_int64 → sub64 (pos (a + b)) (pos a) ≡ pos b
unfolding sub64
sub64_pos a b h = ground arith

-- The traffic between the snapshot and the commit: reads and writes of any users.
abbrev pub IsTraffic : Op → Type 0
IsTraffic (reads user n) = Unit
IsTraffic (writes user n) = Unit
IsTraffic _ = ⊥

abbrev pub bytes_read : Text → List Op → ℕ
bytes_read user [] = 0
bytes_read user (reads u n ∷ ops) = (if u == user then pos_part n else 0) + bytes_read user ops
bytes_read user (op ∷ ops) = bytes_read user ops

abbrev pub bytes_written : Text → List Op → ℕ
bytes_written user [] = 0
bytes_written user (writes u n ∷ ops) =
    (if u == user then pos_part n else 0) + bytes_written user ops
bytes_written user (op ∷ ops) = bytes_written user ops

-- An account with p and r bytes committed, and q and s bytes on top of them.
abbrev pub account : ℕ → ℕ → ℕ → ℕ → TrafficStorage
account p q r s = record {
  up_counter = pos (p + q);
  down_counter = pos (r + s);
  committed_up = pos p;
  committed_down = pos r;
}

module _ (p q r s : ℕ) where
  pub read_exact :
      (n : ℤ)
      → p + (q + pos_part n) ≤ max_int64
      → (if ltb_ℤ (pos 0) n then add_up n (account p q r s) else account p q r s)
        ≡ account p (q + pos_part n) r s
  read_exact (pos n) fits = ground (arith, add64_pos (p + q) n)
  read_exact (negsuc n) fits = ground arith

  pub write_exact :
      (n : ℤ)
      → r + (s + pos_part n) ≤ max_int64
      → (if ltb_ℤ (pos 0) n then add_down n (account p q r s) else account p q r s)
        ≡ account p q r (s + pos_part n)
  write_exact (pos n) fits = ground (arith, add64_pos (r + s) n)
  write_exact (negsuc n) fits = ground arith

  delta_of-account :
      p + q ≤ max_int64 → r + s ≤ max_int64 → delta_of (account p q r s) ≡ (pos q, pos s)
  delta_of-account fu fd = ground (arith, sub64_pos p q fu, sub64_pos r s fd)

abbrev bytes_for : Text → Text → ℤ → ℕ
bytes_for user v n = if user == v then pos_part n else 0

module _ (v user : Text) (n : ℤ) (f : Ledger) (p q r s : ℕ)
    (e : or_zero (f v) ≡ account p q r s) where
  post_read :
      p + (q + bytes_for user v n) ≤ max_int64
      → or_zero (post f (reads user n) v) ≡ account p (q + bytes_for user v n) r s
  unfolding post
  post_read fits = elim (Bool-cases (user == v)) [
    | inl same ↦ rw (same, e) (read_exact p q r s n (simp same at fits))
    | inr other ↦ rw other (ground (arith, e))
  ]

  post_write :
      r + (s + bytes_for user v n) ≤ max_int64
      → or_zero (post f (writes user n) v) ≡ account p q r (s + bytes_for user v n)
  unfolding post
  post_write fits = elim (Bool-cases (user == v)) [
    | inl same ↦ rw (same, e) (write_exact p q r s n (simp same at fits))
    | inr other ↦ rw other (ground (arith, e))
  ]

replay-account :
    (v : Text) (ops : List Op) (f : Ledger) (p q r s : ℕ)
    → All IsTraffic ops
    → or_zero (f v) ≡ account p q r s
    → p + (q + bytes_read v ops) ≤ max_int64
    → r + (s + bytes_written v ops) ≤ max_int64
    → or_zero (replay f ops v) ≡ account p (q + bytes_read v ops) r (s + bytes_written v ops)
unfolding replay
replay-account v [] f p q r s t e fu fd = ground (arith, e)
replay-account v (reads user n ∷ ops) f p q r s t e fu fd =
    let b = bytes_for user v n in
    ground (
      arith,
      replay-account v ops (post f (reads user n)) p (q + b) r s t.1
          (post_read v user n f p q r s e (omega arith)) (omega arith) fd,
    )
replay-account v (writes user n ∷ ops) f p q r s t e fu fd =
    let b = bytes_for user v n in
    ground (
      arith,
      replay-account v ops (post f (writes user n)) p q r (s + b) t.1
          (post_write v user n f p q r s e (omega arith)) fu (omega arith),
    )
replay-account v (commits snap u ∷ ops) f p q r s t e fu fd = elim t.0 [ ]
replay-account v (removes active ∷ ops) f p q r s t e fu fd = elim t.0 [ ]

module _ (p q r s : ℕ) (fu : p + q ≤ max_int64) (fd : r + s ≤ max_int64) where
  pub reported-account :
      (o : Option TrafficStorage)
      → or_zero o ≡ account p q r s
      → reported o ≡ (if ltb 0 q || ltb 0 s then some (pos q, pos s) else none)
  reported-account none e = ground arith
  reported-account (some t) e =
      ap report (ap delta_of e ∙ delta_of-account p q r s fu fd) ∙ ground arith

  commit-account :
      (b d : ℕ)
      → commit_storage (pos q, pos s) (account p (q + b) r (s + d)) ≡ account (p + q) b (r + s) d
  commit-account b d = ground (arith, add64_pos p q fu, add64_pos r s fd)

  commit_known :
      (b d : ℕ) (o : Option TrafficStorage)
      → (ltb 0 q || ltb 0 s) ≡ true
      → or_zero o ≡ account p (q + b) r (s + d)
      → or_zero (map_account (commit_storage (pos q, pos s)) o) ≡ account (p + q) b (r + s) d
  commit_known b d none busy e = absurd (ground arith)
  commit_known b d (some t) busy e = ap (commit_storage (pos q, pos s)) e ∙ commit-account b d

  -- The commit of what was reported moves it to the committed bytes, whatever came in between.
  pub committed-account :
      (b d : ℕ) (v : Text) (snap : Map Text (ℤ × ℤ)) (f : Ledger)
      → lookup v snap ≡ (if ltb 0 q || ltb 0 s then some (pos q, pos s) else none)
      → or_zero (f v) ≡ account p (q + b) r (s + d)
      → or_zero (committed snap f v) ≡ account (p + q) b (r + s) d
  committed-account b d v snap f h e = elim (Bool-cases (ltb 0 q || ltb 0 s)) [
    | inr idle ↦ rw (committed, h, idle) (ground (arith, e))
    | inl busy ↦ rw (committed, h, busy) (commit_known b d (f v) busy e)
  ]

pub traffic-account :
    (c : TrafficCounter) (v : Text) (ops : List Op) (p q r s : ℕ)
    → IsValid c
    → All IsTraffic ops
    → or_zero (view c v) ≡ account p q r s
    → p + (q + bytes_read v ops) ≤ max_int64
    → r + (s + bytes_written v ops) ≤ max_int64
    → or_zero (view (run_ops c ops) v)
      ≡ account p (q + bytes_read v ops) r (s + bytes_written v ops)
traffic-account c v ops p q r s valid t e fu fd =
    ap (λ f. or_zero (f v)) (run_refines ops c valid).1
    ∙ replay-account v ops (view c) p q r s t e fu fd

-- A snapshot that has for the user what was reported is committed after some traffic.
pub commit_after_traffic :
    (c : TrafficCounter) (v : Text) (snap : Map Text (ℤ × ℤ)) (ops : List Op) (p q r s : ℕ)
    → IsValid c
    → IsMap snap
    → lookup v snap ≡ reported (view c v)
    → All IsTraffic ops
    → or_zero (view c v) ≡ account p q r s
    → p + (q + bytes_read v ops) ≤ max_int64
    → r + (s + bytes_written v ops) ≤ max_int64
    → or_zero (view (commit_snapshot snap (run_ops c ops)) v)
      ≡ account (p + q) (bytes_read v ops) (r + s) (bytes_written v ops)
commit_after_traffic c v snap ops p q r s valid u found t e fu fd =
    let valid₁ = (run_refines ops c valid).0 in
    let grown = traffic-account c v ops p q r s valid t e fu fd in
    let known = reported-account p q r s (omega arith) (omega arith) (view c v) e in
    ap or_zero (view-commit_snapshot snap (run_ops c ops) v u valid₁)
    ∙ committed-account p q r s (omega arith) (omega arith) (bytes_read v ops) (bytes_written v ops)
        v snap (view (run_ops c ops)) (found ∙ known) grown

-- If all of an account that is reported is in range, together with the traffic that follows: after a
-- snapshot, any reads and writes of any users, and the commit of that snapshot, the next snapshot
-- reports for the user exactly the bytes read and written since the first one, and nothing if there
-- were none. No byte is lost or reported twice.
pub push_cycle :
    (c : TrafficCounter) (v : Text) (ops : List Op) (p q r s : ℕ)
    → IsValid c
    → All IsTraffic ops
    → or_zero (view c v) ≡ account p q r s
    → p + (q + bytes_read v ops) ≤ max_int64
    → r + (s + bytes_written v ops) ≤ max_int64
    → lookup v (snapshot_delta (commit_snapshot (snapshot_delta c) (run_ops c ops))) ≡ (
        if ltb 0 (bytes_read v ops) || ltb 0 (bytes_written v ops)
        then some (pos (bytes_read v ops), pos (bytes_written v ops))
        else none)
push_cycle c v ops p q r s valid t e fu fd =
    let d = snapshot_delta c in
    let c₂ = commit_snapshot d (run_ops c ops) in
    let now =
      commit_after_traffic c v d ops p q r s valid (snapshot_delta-IsMap c valid)
        (lookup-snapshot_delta c v valid) t e fu fd in
    lookup-snapshot_delta c₂ v
      (commit_snapshot-IsValid d (run_ops c ops) (run_refines ops c valid).0)
    ∙ reported-account (p + q) (bytes_read v ops) (r + s) (bytes_written v ops) (omega arith)
        (omega arith) (view c₂ v) now
