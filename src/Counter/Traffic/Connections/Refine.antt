-- ===== src/Counter/Traffic/Connections/Refine.antt =====
-- The counters with their connections against the books (counter/counter.go).
use mathlib.Core.Path.{fun_ext}
use mini_sb_xboard_agent.Base.{
  ℕ, zero, suc, ◌≡◌, ◌≢◌, refl, ap, ◌∙◌, Option, none, some, List, [], ◌∷◌, arith, nat_beq,
  nat_beq_iff, if◌then◌else◌, Bool-cases, Option-cases, inl, inr, ◌⊎◌,
}
use mini_sb_xboard_agent.Base.Int.{ℤ, pos, ltb_ℤ, int_eq}
use mini_sb_xboard_agent.Base.Text.{Text, text_eq}
use mini_sb_xboard_agent.Base.Map.{lookup}
use mini_sb_xboard_agent.Counter.Traffic.{
  TrafficStorage, TrafficCounter, get_counter, add_up, add_down, change, count_read, count_write,
  commit_snapshot, remove_absent,
}
use mini_sb_xboard_agent.Counter.Traffic.Ledger.{
  IsValid, Ledger, view, opened, changed, committed, remaining, get_counter-IsValid,
  get_counter_lem, view-get_counter, view-change, change-IsValid, view-commit_snapshot,
  commit_snapshot-IsValid, view-remove_absent, remove_absent-IsValid,
}
use mini_sb_xboard_agent.Counter.Traffic.Connections.{
  Event, routed, conn_reads, conn_writes, committed_all, removed, nth, Served, through, act,
  act_all, Books, billed, still, book, book_all, Holds, AllHold, Describes,
}
use mini_sb_xboard_agent.Counter.Traffic.Connections.Holds.{
  AllHold-append, AllHold-map, AllHold-same, Holds-eq, Holds-get_counter, counters-commit_snapshot,
  Holds-remove_absent,
}

-- What the i-th connection has, and who owns it.
nth-AllHold :
    (c : TrafficCounter) (i : ℕ) (conns : List ℕ) (owners : List (Option Text))
    → AllHold c conns owners
    → ((nth i conns ≡ none) × (nth i owners ≡ none))
      ⊎ ((a : ℕ) × (o : Option Text) × (nth i conns ≡ some a)
          × (nth i owners ≡ some o)
          × Holds c a o)
nth-AllHold c i [] [] h = inl (refl, refl)
nth-AllHold c i [] (x ∷ owners) h = elim h [ ]
nth-AllHold c i (x ∷ conns) [] h = elim h [ ]
nth-AllHold c zero (x ∷ conns) (y ∷ owners) h = inr (x, y, refl, refl, h.0)
nth-AllHold c (suc i) (x ∷ conns) (y ∷ owners) h = nth-AllHold c i conns owners h.1

module _ (c : TrafficCounter) (valid : IsValid c) (f : Ledger) (accounts : view c ≡ f)
    (g : TrafficStorage → TrafficStorage) (n : ℤ) where
  counted : ℕ → TrafficCounter
  counted a = if ltb_ℤ (pos 0) n then change g a c else c

  view-owned :
      (a : ℕ) (user : Text)
      → lookup user c.counters ≡ some a
      → view (change g a c) ≡ changed g user f
  view-owned a user h =
      fun_ext (λ v. view-change c valid g user v a h) ∙ ap (changed g user) accounts

  view-orphan : (a : ℕ) → ((v : Text) → lookup v c.counters ≢ some a) → view (change g a c) ≡ f
  unfolding view change
  view-orphan a lost =
      fun_ext (λ v. elim (Option-cases (lookup v c.counters)) [
        | inl missing ↦ ground (arith, missing)
        | inr (b, found) ↦ elim (Bool-cases (nat_beq a b)) [
          | inl same ↦ absurd (ground (arith, nat_beq_iff a b, lost v))
          | inr other ↦ ground (arith, other, found)
        ]
      ])
      ∙ accounts

  AllHold-change :
      (a : ℕ) (conns : List ℕ) (owners : List (Option Text))
      → AllHold c conns owners
      → AllHold (change g a c) conns owners
  unfolding change
  AllHold-change a conns owners =
      AllHold-same c (change g a c) conns owners (λ x o. Holds-eq c (change g a c) x o refl refl)

  Describes-counted :
      (a : ℕ) (o : Option Text) (conns : List ℕ) (owners : List (Option Text))
      → Holds c a o
      → AllHold c conns owners
      → Describes
          (record { counter = counted a; conns = conns })
          (record { ledger = billed (some o) g n f; owners = owners })
  unfolding counted
  Describes-counted a none conns owners h all = elim (Bool-cases (ltb_ℤ (pos 0) n)) [
    | inr idle ↦ rw idle (record { valid = valid; accounts = accounts; held = all })
    | inl moved ↦ rw moved (record {
      valid = change-IsValid c valid g a;
      accounts = view-orphan a h.1;
      held = AllHold-change a conns owners all;
    })
  ]
  Describes-counted a (some user) conns owners h all = elim (Bool-cases (ltb_ℤ (pos 0) n)) [
    | inr idle ↦ rw idle (record { valid = valid; accounts = accounts; held = all })
    | inl moved ↦ rw moved (record {
      valid = change-IsValid c valid g a;
      accounts = view-owned a user h.1;
      held = AllHold-change a conns owners all;
    })
  ]

module _ (s : Served) (b : Books) (d : Describes s b) where
  Describes-through :
      (g : TrafficStorage → TrafficStorage) (n : ℤ) (i : ℕ)
      → Describes
          (record s {
            counter =
                through
                  (λ a c. if ltb_ℤ (pos 0) n then change g a c else c)
                  (nth i s.conns)
                  s.counter;
          })
          (record b { ledger = billed (nth i b.owners) g n b.ledger })
  unfolding counted
  Describes-through g n i = elim (nth-AllHold s.counter i s.conns b.owners d.held) [
    | inl (no_conn, no_owner) ↦ rw (no_conn, no_owner) d
    | inr (a, o, conn, owner, h) ↦
        rw (conn, owner)
          (Describes-counted s.counter d.valid b.ledger d.accounts g n a o s.conns b.owners h
            d.held)
  ]

  Describes-routed : (user : Text) → Describes (act s (routed user)) (book b (routed user))
  unfolding act book
  Describes-routed user =
      let r = get_counter user s.counter in
      let valid = get_counter-IsValid s.counter d.valid user in
      let new = get_counter_lem s.counter d.valid user in
      record {
        valid = valid;
        accounts = fun_ext (view-get_counter s.counter d.valid user) ∙ ap (opened user) d.accounts;
        held =
            AllHold-append r.0 s.conns b.owners r.1 (some user)
              (AllHold-same s.counter r.0 s.conns b.owners
                (Holds-get_counter s.counter d.valid user) d.held)
              (valid.below user r.1 new, new);
      }

  Describes-act : (e : Event) → Describes (act s e) (book b e)
  unfolding act book count_read count_write
  Describes-act (routed user) = Describes-routed user
  Describes-act (conn_reads i n) = Describes-through (add_up n) n i
  Describes-act (conn_writes i n) = Describes-through (add_down n) n i
  Describes-act (committed_all snap u) =
      let (same, same') = counters-commit_snapshot snap s.counter in
      record {
        valid = commit_snapshot-IsValid snap s.counter d.valid;
        accounts =
            fun_ext (λ v. view-commit_snapshot snap s.counter v u d.valid)
            ∙ ap (committed snap) d.accounts;
        held =
            AllHold-same s.counter (commit_snapshot snap s.counter) s.conns b.owners
              (λ a o. Holds-eq s.counter (commit_snapshot snap s.counter) a o same same') d.held;
      }
  Describes-act (removed active) = record {
    valid = remove_absent-IsValid active s.counter d.valid;
    accounts =
        fun_ext (view-remove_absent active s.counter d.valid) ∙ ap (remaining active) d.accounts;
    held =
        AllHold-map s.counter (remove_absent active s.counter) (still (remaining active b.ledger))
          s.conns b.owners (Holds-remove_absent active s.counter d.valid b.ledger d.accounts)
          d.held;
  }

-- The counters of an inbound with the pointers that its connections keep behave as the books say. From
-- counters that books describe, any sequence of routed connections, reads and writes of any of them,
-- commits and removals leaves counters that the books describe after the same sequence: bytes go to
-- the account of the connection's owner and touch no other, and when an account is removed, its open
-- connections have no owner any more and what they move goes to no account.
pub connections_refine :
    (es : List Event) (s : Served) (b : Books)
    → Describes s b
    → Describes (act_all s es) (book_all b es)
unfolding act_all book_all
connections_refine [] s b d = d
connections_refine (e ∷ es) s b d =
    connections_refine es (act s e) (book b e) (Describes-act s b d e)
