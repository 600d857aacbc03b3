-- ===== src/Counter/Traffic.antt =====
-- The traffic counters of one inbound (counter/counter.go). A `*TrafficStorage` is an address into a
-- heap, since an open connection keeps the pointer that it got from `GetCounter`.
pub mod Ledger
pub mod Run
pub mod Push
pub mod Orphan
pub mod Connections
use mini_sb_xboard_agent.Base.{
  ℕ, ◌+◌, Bool, true, false, not, ◌&&◌, ◌||◌, Option, none, some, List, [], ◌∷◌, nat_beq, ◌==◌,
  if◌then◌else◌,
}
use mini_sb_xboard_agent.Base.Int.{ℤ, pos, ltb_ℤ, int_eq, add64, sub64}
use mini_sb_xboard_agent.Base.Text.{Text, text_eq}
use mini_sb_xboard_agent.Base.Map.{Map, lookup, contains, put}

pub record TrafficStorage : Type 0 where
  pub up_counter : ℤ
  pub down_counter : ℤ
  pub committed_up : ℤ
  pub committed_down : ℤ

-- `&TrafficStorage{}`
abbrev pub zero_storage : TrafficStorage
zero_storage = record {
  up_counter = pos 0;
  down_counter = pos 0;
  committed_up = pos 0;
  committed_down = pos 0;
}

-- The map of `TrafficCounter`, with the storages behind its pointers; `next` was never handed out.
pub record TrafficCounter : Type 0 where
  pub counters : Map Text ℕ
  pub heap : ℕ → TrafficStorage
  pub next : ℕ

-- `NewTrafficCounter`
abbrev pub new_traffic_counter : TrafficCounter
new_traffic_counter = record { counters = []; heap = λ _. zero_storage; next = 0 }

abbrev pub update : (ℕ → TrafficStorage) → ℕ → TrafficStorage → ℕ → TrafficStorage
update heap a s b = if nat_beq a b then s else heap b

-- `GetCounter`: the pointer of a user, made at the first call.
unfoldable pub get_counter : Text → TrafficCounter → TrafficCounter × ℕ
get_counter user c = elim (lookup user c.counters) [
  | some a ↦ (c, a)
  | none ↦ (
    record {
      counters = put user c.next c.counters;
      heap = update c.heap c.next zero_storage;
      next = c.next + 1;
    },
    c.next,
  )
]

-- `UpCounter.Add` and `DownCounter.Add` through a pointer.
abbrev pub add_up : ℤ → TrafficStorage → TrafficStorage
add_up n s = record s { up_counter = add64 s.up_counter n }

abbrev pub add_down : ℤ → TrafficStorage → TrafficStorage
add_down n s = record s { down_counter = add64 s.down_counter n }

unfoldable pub change : (TrafficStorage → TrafficStorage) → ℕ → TrafficCounter → TrafficCounter
change f a c = record c { heap = update c.heap a (f (c.heap a)) }

-- What a `ConnCounter` or a `PacketConnCounter` does with the n bytes that a read or a write moved:
-- only a positive number counts. An error of the connection that moved nothing counts nothing.
unfoldable pub count_read : ℕ → ℤ → TrafficCounter → TrafficCounter
unfolding change
count_read a n c = if ltb_ℤ (pos 0) n then change (add_up n) a c else c

unfoldable pub count_write : ℕ → ℤ → TrafficCounter → TrafficCounter
unfolding change
count_write a n c = if ltb_ℤ (pos 0) n then change (add_down n) a c else c

-- What the buffer methods count: the length of the buffer, if there was no error.
abbrev pub moved : Bool → ℤ → ℤ
moved failed n = if failed then pos 0 else n

-- The buffer methods of `ConnCounter`, and the methods of `PacketConnCounter`, for what the connection
-- did: whether it failed, and the length of the buffer.
unfoldable pub read_buffer : ℕ → Bool → ℤ → TrafficCounter → TrafficCounter
unfolding count_read
read_buffer a failed n = count_read a (moved failed n)

unfoldable pub write_buffer : ℕ → Bool → ℤ → TrafficCounter → TrafficCounter
unfolding count_write
write_buffer a failed n = count_write a (moved failed n)

unfoldable pub read_packet : ℕ → Bool → ℤ → TrafficCounter → TrafficCounter
unfolding count_read
read_packet a failed n = count_read a (moved failed n)

unfoldable pub write_packet : ℕ → Bool → ℤ → TrafficCounter → TrafficCounter
unfolding count_write
write_packet a failed n = count_write a (moved failed n)

snapshot_from : (ℕ → TrafficStorage) → Map Text ℕ → Map Text (ℤ × ℤ)
snapshot_from heap [] = []
snapshot_from heap ((user, a) ∷ m) =
    (user, ((heap a).up_counter, (heap a).down_counter)) ∷ snapshot_from heap m

-- `Snapshot`, which does not look at its argument `reset`.
unfoldable pub snapshot : Bool → TrafficCounter → Map Text (ℤ × ℤ)
unfolding snapshot_from
snapshot reset c = snapshot_from c.heap c.counters

abbrev pub delta_of : TrafficStorage → ℤ × ℤ
delta_of s = (sub64 s.up_counter s.committed_up, sub64 s.down_counter s.committed_down)

abbrev pub is_positive : ℤ × ℤ → Bool
is_positive d = ltb_ℤ (pos 0) d.0 || ltb_ℤ (pos 0) d.1

unfoldable pub delta_from : (ℕ → TrafficStorage) → Map Text ℕ → Map Text (ℤ × ℤ)
delta_from heap [] = []
delta_from heap ((user, a) ∷ m) =
    let rest = delta_from heap m in
    if is_positive (delta_of (heap a)) then (user, delta_of (heap a)) ∷ rest else rest

-- `SnapshotDelta`
unfoldable pub snapshot_delta : TrafficCounter → Map Text (ℤ × ℤ)
unfolding delta_from
snapshot_delta c = delta_from c.heap c.counters

abbrev pub commit_storage : ℤ × ℤ → TrafficStorage → TrafficStorage
commit_storage d s = record s {
  committed_up = add64 s.committed_up d.0;
  committed_down = add64 s.committed_down d.1;
}

unfoldable pub commit_user : Text → ℤ × ℤ → TrafficCounter → TrafficCounter
unfolding change
commit_user user d c = elim (lookup user c.counters) [
  | none ↦ c
  | some a ↦ change (commit_storage d) a c
]

-- `CommitSnapshot`
unfoldable pub commit_snapshot : Map Text (ℤ × ℤ) → TrafficCounter → TrafficCounter
commit_snapshot [] c = c
commit_snapshot ((user, d) ∷ snap) c = commit_snapshot snap (commit_user user d c)

-- All that was counted is committed.
abbrev pub is_settled : TrafficStorage → Bool
is_settled s = s.up_counter == s.committed_up && s.down_counter == s.committed_down

unfoldable pub remove_from : (ℕ → TrafficStorage) → Map Text (Unit {0}) → Map Text ℕ → Map Text ℕ
remove_from heap active [] = []
remove_from heap active ((user, a) ∷ m) =
    let rest = remove_from heap active m in
    if not (contains user active) && is_settled (heap a) then rest else (user, a) ∷ rest

-- `RemoveAbsent`
unfoldable pub remove_absent : Map Text (Unit {0}) → TrafficCounter → TrafficCounter
unfolding remove_from
remove_absent active c = record c { counters = remove_from c.heap active c.counters }
