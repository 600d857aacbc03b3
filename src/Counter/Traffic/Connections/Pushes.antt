-- ===== src/Counter/Traffic/Connections/Pushes.antt =====
-- Pushes of the traffic of an inbound whose connections keep their pointers: the rounds of `flush`
-- (panelapi/sync.go) on one `TrafficCounter` (counter/counter.go).
use mini_sb_xboard_agent.Base.{
  ℕ, ◌+◌, Bool, false, Option, none, some, List, [], ◌∷◌, nat_beq, if◌then◌else◌,
}
use mini_sb_xboard_agent.Base.Int.{ℤ, pos, pos_part}
use mini_sb_xboard_agent.Base.Text.{Text, text_eq}
use mini_sb_xboard_agent.Base.Map.{lookup}
use mini_sb_xboard_agent.Counter.Traffic.{TrafficCounter, snapshot_delta, commit_snapshot}
use mini_sb_xboard_agent.Counter.Traffic.Connections.{
  Event, conn_reads, conn_writes, nth, Served, act, act_all,
}

-- Something happens, or a delta is pushed: `SnapshotDelta`, what happens during the push, and
-- `CommitSnapshot` of that delta if the push succeeded.
pub data Turn : Type 0 where
  happens : Event → Turn
  pushes : Bool → List Event → Turn

unfoldable pub turn : Served → Turn → Served
turn s (happens e) = act s e
turn s (pushes ok es) =
    let after = act_all s es in
    if ok
    then record after { counter = commit_snapshot (snapshot_delta s.counter) after.counter }
    else after

unfoldable pub turns : Served → List Turn → Served
turns s [] = s
turns s (t ∷ ts) = turns (turn s t) ts

-- A connection counts for the user whose storage it has a pointer to at that time.
abbrev pub has_pointer : Text → ℕ → TrafficCounter → Bool
has_pointer v a c = elim (lookup v c.counters) [ none ↦ false | some b ↦ nat_beq a b ]

abbrev pub pointed : Text → Option ℕ → TrafficCounter → Bool
pointed v none c = false
pointed v (some a) c = has_pointer v a c

abbrev pub counts_for : Text → ℕ → Served → Bool
counts_for v i s = pointed v (nth i s.conns) s.counter

-- The bytes that connections read and write for a user.
abbrev pub read_by : Text → Served → Event → ℕ
read_by v s (conn_reads i n) = if counts_for v i s then pos_part n else 0
read_by v s _ = 0

abbrev pub written_by : Text → Served → Event → ℕ
written_by v s (conn_writes i n) = if counts_for v i s then pos_part n else 0
written_by v s _ = 0

-- Their sums over events and over turns.
unfoldable pub in_events : (Served → Event → ℕ) → Served → List Event → ℕ
in_events f s [] = 0
in_events f s (e ∷ es) = f s e + in_events f (act s e) es

unfoldable pub in_turn : (Served → Event → ℕ) → Served → Turn → ℕ
in_turn f s (happens e) = f s e
in_turn f s (pushes ok es) = in_events f s es

unfoldable pub in_turns : (Served → Event → ℕ) → Served → List Turn → ℕ
in_turns f s [] = 0
in_turns f s (t ∷ ts) = in_turn f s t + in_turns f (turn s t) ts

-- What the next snapshot reports for a user.
abbrev amounts : Option (ℤ × ℤ) → ℤ × ℤ
amounts none = (pos 0, pos 0)
amounts (some d) = d

abbrev pub pending : (ℤ × ℤ → ℤ) → Text → Served → ℕ
pending part v s = pos_part (part (amounts (lookup v (snapshot_delta s.counter))))

-- What the successful pushes had for a user.
abbrev pub sent_in : (ℤ × ℤ → ℤ) → Text → Served → Turn → ℕ
sent_in part v s (happens e) = 0
sent_in part v s (pushes ok es) = if ok then pending part v s else 0

unfoldable pub sent : (ℤ × ℤ → ℤ) → Text → Served → List Turn → ℕ
sent part v s [] = 0
sent part v s (t ∷ ts) = sent_in part v s t + sent part v (turn s t) ts
