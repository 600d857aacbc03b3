-- ===== src/Counter/Traffic/Connections.antt =====
-- Connections that keep the pointer they got when they were routed (`RoutedConnection` in
-- cmd/mini-sb-agent/main.go, counter/counter.go), and the books that describe them without pointers: an
-- account for each user, and for each connection the user whose account it counts into, or none.
pub mod Holds
pub mod Refine
pub mod Pushes
pub mod Account
pub mod Exact
use mathlib.Core.Path.{fun_ext, subst}
use mini_sb_xboard_agent.Base.{
  ℕ, zero, suc, ◌+◌, ◌<◌, ◌≤◌, ◌≡◌, ◌≢◌, refl, sym, ap, ◌∙◌, Bool, true, false, not, ◌&&◌, Option,
  none, some, List, [], ◌∷◌, ◌++◌, map, arith, ◌==◌, nat_beq, nat_beq_iff, if◌then◌else◌,
  Bool-cases, Option-cases, inl, inr, ◌⊎◌,
}
use mini_sb_xboard_agent.Base.Int.{ℤ, pos, ltb_ℤ, int_eq}
use mini_sb_xboard_agent.Base.Text.{Text, text_eq, text_beq_iff}
use mini_sb_xboard_agent.Base.Map.{Map, IsMap, lookup, put, contains, lookup-put}
use mini_sb_xboard_agent.Counter.Traffic.{
  TrafficStorage, TrafficCounter, new_traffic_counter, get_counter, add_up, add_down, change,
  count_read, count_write, commit_snapshot, commit_user, is_settled, remove_absent, update,
}
use mini_sb_xboard_agent.Counter.Traffic.Ledger.{
  IsValid, Ledger, view, or_zero, opened, changed, map_account, committed, remaining, keep_account,
  get_counter-IsValid, get_counter_lem, with_user, get_counter_new, view-get_counter, view-change,
  change-IsValid, view-commit_snapshot, commit_snapshot-IsValid, view-remove_absent,
  remove_absent-IsValid, lookup-remove_from, goes,
}

-- A connection is routed for a user; the i-th connection reads or writes n bytes; a pushed snapshot is
-- committed; the absent users are removed.
pub data Event : Type 0 where
  routed : Text → Event
  conn_reads conn_writes : ℕ → ℤ → Event
  committed_all : (snap : Map Text (ℤ × ℤ)) → IsMap snap → Event
  removed : Map Text (Unit {0}) → Event

abbrev pub nth {ℓ} : {A : Type ℓ} → ℕ → List A → Option A
nth i [] = none
nth zero (x ∷ xs) = some x
nth (suc i) (x ∷ xs) = nth i xs

-- The counters of an inbound, and the pointers of the connections in the order of their routing.
pub record Served : Type 0 where
  pub counter : TrafficCounter
  pub conns : List ℕ

-- What a connection does with its pointer.
abbrev pub through :
    (ℕ → TrafficCounter → TrafficCounter) → Option ℕ → TrafficCounter → TrafficCounter
through f none c = c
through f (some a) c = f a c

unfoldable pub act : Served → Event → Served
act s (routed user) =
    let r = get_counter user s.counter in record { counter = r.0; conns = s.conns ++ (r.1 ∷ []) }
act s (conn_reads i n) = record s {
  counter = through (λ a. count_read a n) (nth i s.conns) s.counter;
}
act s (conn_writes i n) = record s {
  counter = through (λ a. count_write a n) (nth i s.conns) s.counter;
}
act s (committed_all snap u) = record s { counter = commit_snapshot snap s.counter }
act s (removed active) = record s { counter = remove_absent active s.counter }

unfoldable pub act_all : Served → List Event → Served
act_all s [] = s
act_all s (e ∷ es) = act_all (act s e) es

-- The books.
pub record Books : Type 0 where
  pub ledger : Ledger
  pub owners : List (Option Text)

-- What n bytes of a connection do to the account of its owner, if it has one.
abbrev pub billed : Option (Option Text) → (TrafficStorage → TrafficStorage) → ℤ → Ledger → Ledger
billed (some (some user)) g n f = if ltb_ℤ (pos 0) n then changed g user f else f
billed _ g n f = f

-- A connection loses its owner when the owner's account is removed.
abbrev pub still : Ledger → Option Text → Option Text
still f none = none
still f (some user) = elim (f user) [ none ↦ none | some _ ↦ some user ]

unfoldable pub book : Books → Event → Books
book b (routed user) = record {
  ledger = opened user b.ledger;
  owners = b.owners ++ (some user ∷ []);
}
book b (conn_reads i n) = record b { ledger = billed (nth i b.owners) (add_up n) n b.ledger }
book b (conn_writes i n) = record b { ledger = billed (nth i b.owners) (add_down n) n b.ledger }
book b (committed_all snap u) = record b { ledger = committed snap b.ledger }
book b (removed active) =
    let left = remaining active b.ledger in
    record { ledger = left; owners = map (still left) b.owners }

unfoldable pub book_all : Books → List Event → Books
book_all b [] = b
book_all b (e ∷ es) = book_all (book b e) es

-- A pointer that is owned, or that no user has any more.
abbrev pub Holds : TrafficCounter → ℕ → Option Text → Type 0
Holds c a (some user) = (a < c.next) × (lookup user c.counters ≡ some a)
Holds c a none = (a < c.next) × ((v : Text) → lookup v c.counters ≢ some a)

abbrev pub AllHold : TrafficCounter → List ℕ → List (Option Text) → Type 0
AllHold c [] [] = Unit
AllHold c (a ∷ conns) (o ∷ owners) = Holds c a o × AllHold c conns owners
AllHold c _ _ = ⊥

-- The books describe the counters and their connections.
pub record Describes (s : Served) (b : Books) : Type 0 where
  pub valid : IsValid s.counter
  pub accounts : view s.counter ≡ b.ledger
  pub held : AllHold s.counter s.conns b.owners
