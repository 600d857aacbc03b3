-- ===== src/Agent/Hook.antt =====
-- The traffic hook of the agent (`Hook` in cmd/mini-sb-agent/main.go): the counters of all inbounds.
pub mod Flush
pub mod Exact
use mini_sb_xboard_agent.Base.{
  ℕ, Bool, true, false, Option, none, some, List, [], ◌∷◌, if◌then◌else◌,
}
use mini_sb_xboard_agent.Base.Int.{ℤ}
use mini_sb_xboard_agent.Base.Text.{Text, lit, text_eq, is_empty}
use mini_sb_xboard_agent.Base.Map.{Map, lookup, put}
use mini_sb_xboard_agent.PanelApi.Sync.{keep_tag}
use mini_sb_xboard_agent.Counter.Traffic.{
  TrafficCounter, new_traffic_counter, get_counter, snapshot, snapshot_delta, commit_snapshot,
  remove_absent,
}

-- `byInbound`. A counter is never removed, so its pointer is its tag.
abbrev pub Hook : Type 0
Hook = Map Text TrafficCounter

abbrev pub tag_of : Text → Text
tag_of tag = if is_empty tag then lit "default" else tag

-- `tc`: the counter of an inbound, made at the first call.
unfoldable pub tc : Text → Hook → Hook × TrafficCounter
tc tag h = elim (lookup (tag_of tag) h) [
  | some c ↦ (h, c)
  | none ↦ (put (tag_of tag) new_traffic_counter h, new_traffic_counter)
]

-- What `RoutedConnection` and `RoutedPacketConnection` do to the counters, for a user name that was
-- resolved: the storage that the new connection counts into, `none` for a connection without a user.
unfoldable pub routed_connection : (Text → Text) → Text → Text → Hook → Hook × Option ℕ
unfolding tc
routed_connection resolve_user user inbound h =
    if is_empty user
    then (h, none)
    else let found = tc inbound h in
      let counted = get_counter (resolve_user user) found.1 in
      (put (tag_of inbound) counted.0 found.0, some counted.1)

-- `Snapshot`
unfoldable pub snapshot_all : Bool → Hook → Map Text (Map Text (ℤ × ℤ))
snapshot_all reset [] = []
snapshot_all reset ((tag, c) ∷ h) = (tag, snapshot reset c) ∷ snapshot_all reset h

-- `SnapshotDelta`
unfoldable pub snapshot_deltas : Hook → Map Text (Map Text (ℤ × ℤ))
snapshot_deltas [] = []
snapshot_deltas ((tag, c) ∷ h) = keep_tag tag (snapshot_delta c) (snapshot_deltas h)

-- `v.(*counter.TrafficCounter).CommitSnapshot(users)`, if the inbound is there.
unfoldable pub commit_inbound : Text → Map Text (ℤ × ℤ) → Hook → Hook
commit_inbound tag users h = elim (lookup tag h) [
  | none ↦ h
  | some c ↦ put tag (commit_snapshot users c) h
]

-- `CommitSnapshot`
unfoldable pub commit_snapshots : Map Text (Map Text (ℤ × ℤ)) → Hook → Hook
commit_snapshots [] h = h
commit_snapshots ((tag, users) ∷ snap) h = commit_snapshots snap (commit_inbound tag users h)

-- `RemoveAbsent`
unfoldable pub remove_absent_all : Map Text (Unit {0}) → Hook → Hook
remove_absent_all active [] = []
remove_absent_all active ((tag, c) ∷ h) = (tag, remove_absent active c) ∷ remove_absent_all active h
