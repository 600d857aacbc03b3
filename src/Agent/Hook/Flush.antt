-- ===== src/Agent/Hook/Flush.antt =====
-- A flush of the traffic of all inbounds, as the agent wires it: the hook's counters under the
-- synchroniser's `flush` (cmd/mini-sb-agent/main.go, panelapi/sync.go, counter/counter.go).
use mini_sb_xboard_agent.Base.{
  ◌≡◌, refl, sym, ap, ◌∙◌, Option, none, some, List, [], ◌∷◌, arith, ◌==◌, if◌then◌else◌,
  Bool-cases, Option-cases, inl, inr,
}
use mini_sb_xboard_agent.Base.Int.{ℤ}
use mini_sb_xboard_agent.Base.Text.{Text, text_eq, text_beq_iff}
use mini_sb_xboard_agent.Base.Map.{Map, IsMap, lookup, put, lookup-put, put-IsMap}
use mini_sb_xboard_agent.Counter.Traffic.{
  TrafficCounter, new_traffic_counter, snapshot_delta, commit_snapshot, commit_user, remove_absent,
  remove_from,
}
use mini_sb_xboard_agent.Counter.Traffic.Run.{Op, run_ops, step}
use mini_sb_xboard_agent.PanelApi.Client.{Delta}
use mini_sb_xboard_agent.PanelApi.Sync.Laws.{
  or_empty, lookup-keep_tag, lookup-keep_tag-none, keep_tag-IsMap,
}
use mini_sb_xboard_agent.Agent.Hook.{
  Hook, tag_of, tc, snapshot_deltas, commit_inbound, commit_snapshots, remove_absent_all,
}

snapshot_deltas-none :
    (t : Text) (h : Hook) → lookup t h ≡ none → lookup t (snapshot_deltas h) ≡ none
unfolding lookup snapshot_deltas
snapshot_deltas-none t [] n = refl
snapshot_deltas-none t ((tag, c) ∷ h) n =
    lookup-keep_tag-none t tag (snapshot_delta c) (snapshot_deltas h)
      (snapshot_deltas-none t h (ground arith)) (ground arith)

-- The counters of an inbound; an inbound that is not known yet has none.
abbrev pub or_new : Option TrafficCounter → TrafficCounter
or_new none = new_traffic_counter
or_new (some c) = c

unfoldable pub counter_at : Text → Hook → TrafficCounter
counter_at t h = or_new (lookup t h)

snapshot_delta_new : snapshot_delta new_traffic_counter ≡ []
unfolding snapshot_delta
snapshot_delta_new = refl

pub lookup-snapshot_deltas :
    (t : Text) (h : Hook)
    → IsMap h
    → or_empty (lookup t (snapshot_deltas h)) ≡ snapshot_delta (counter_at t h)
unfolding lookup snapshot_deltas counter_at
lookup-snapshot_deltas t [] u = sym snapshot_delta_new
lookup-snapshot_deltas t ((tag, d) ∷ h) u =
    lookup-keep_tag t tag (snapshot_delta d) (snapshot_deltas h) (snapshot_deltas-none tag h u.0)
    ∙ elim (Bool-cases (tag == t)) [
      | inl same ↦ rw same refl
      | inr other ↦ rw other (lookup-snapshot_deltas t h u.1)
    ]

pub snapshot_deltas-IsMap : (h : Hook) → IsMap h → IsMap (snapshot_deltas h)
unfolding snapshot_deltas
snapshot_deltas-IsMap [] u = tt
snapshot_deltas-IsMap ((tag, c) ∷ h) u =
    keep_tag-IsMap tag (snapshot_delta c) (snapshot_deltas h) (snapshot_deltas-none tag h u.0)
      (snapshot_deltas-IsMap h u.1)

-- The commit of all inbounds commits each.
commit_new :
    (users : Map Text (ℤ × ℤ)) → commit_snapshot users new_traffic_counter ≡ new_traffic_counter
unfolding commit_snapshot commit_user lookup
commit_new [] = refl
commit_new ((user, d) ∷ users) = commit_new users

counter_at-commit_inbound :
    (t tag : Text) (users : Map Text (ℤ × ℤ)) (h : Hook)
    → counter_at t (commit_inbound tag users h)
      ≡ (if tag == t then commit_snapshot users (counter_at t h) else counter_at t h)
unfolding commit_inbound counter_at
counter_at-commit_inbound t tag users h = elim (Option-cases (lookup tag h)) [
  | inl missing ↦ elim (Bool-cases (tag == t)) [
    | inl same ↦
        let gone : lookup t h ≡ none = ground (arith, text_beq_iff tag t) in
        rw (commit_inbound, missing, same, gone) (sym (commit_new users))
    | inr other ↦ rw (commit_inbound, missing, other) refl
  ]
  | inr (d, found) ↦
      ground (arith, text_beq_iff tag t, lookup-put t tag (commit_snapshot users d) h)
]

pub counter_at-commit_snapshots :
    (t : Text) (snap : Delta) (h : Hook)
    → IsMap snap
    → counter_at t (commit_snapshots snap h)
      ≡ commit_snapshot (or_empty (lookup t snap)) (counter_at t h)
unfolding commit_snapshots lookup commit_snapshot
counter_at-commit_snapshots t [] h u = refl
counter_at-commit_snapshots t ((tag, users) ∷ snap) h u =
    counter_at-commit_snapshots t snap (commit_inbound tag users h) u.1
    ∙ ap (commit_snapshot (or_empty (lookup t snap))) (counter_at-commit_inbound t tag users h)
    ∙ elim (Bool-cases (tag == t)) [
      | inl same ↦
          let gone : lookup t snap ≡ none = ground (arith, text_beq_iff tag t) in
          rw (same, gone) refl
      | inr other ↦ rw other refl
    ]

-- What the connections do between a snapshot and the end of the flush, by inbound.
unfoldable pub hook_traffic : List (Text × Op) → Hook → Hook
hook_traffic [] h = h
hook_traffic ((inbound, op) ∷ ops) h =
    let found = tc inbound h in hook_traffic ops (put (tag_of inbound) (step found.1 op) found.0)

abbrev pub ops_at : Text → List (Text × Op) → List Op
ops_at tag [] = []
ops_at tag ((inbound, op) ∷ ops) =
    if tag_of inbound == tag then op ∷ ops_at tag ops else ops_at tag ops

one_op :
    (t inbound : Text) (op : Op) (h : Hook)
    → counter_at t (put (tag_of inbound) (step (tc inbound h).1 op) (tc inbound h).0)
      ≡ (if tag_of inbound == t then step (counter_at t h) op else counter_at t h)
unfolding tc counter_at
one_op t inbound op h =
    let tag = tag_of inbound in
    elim (Option-cases (lookup tag h)) [
      | inl missing ↦
          rw (tc, missing)
            (ground (
              arith,
              lookup-put t tag (step new_traffic_counter op) (put tag new_traffic_counter h),
              lookup-put t tag new_traffic_counter h,
              text_beq_iff tag t,
            ))
      | inr (d, found) ↦
          rw (tc, found) (ground (arith, lookup-put t tag (step d op) h, text_beq_iff tag t))
    ]

pub counter_at-hook_traffic :
    (t : Text) (ops : List (Text × Op)) (h : Hook)
    → counter_at t (hook_traffic ops h) ≡ run_ops (counter_at t h) (ops_at t ops)
unfolding hook_traffic run_ops
counter_at-hook_traffic t [] h = refl
counter_at-hook_traffic t ((inbound, op) ∷ ops) h =
    counter_at-hook_traffic t ops _
    ∙ ap (λ c. run_ops c (ops_at t ops)) (one_op t inbound op h)
    ∙ elim (Bool-cases (tag_of inbound == t)) [
      | inl same ↦ rw same refl
      | inr other ↦ rw other refl
    ]

-- No operation gives an inbound two counters.
pub hook_traffic-IsMap : (ops : List (Text × Op)) (h : Hook) → IsMap h → IsMap (hook_traffic ops h)
unfolding hook_traffic tc
hook_traffic-IsMap [] h u = u
hook_traffic-IsMap ((inbound, op) ∷ ops) h u =
    let tag = tag_of inbound in
    elim (Option-cases (lookup tag h)) [
      | inl missing ↦
          rw (hook_traffic, tc, missing)
            (hook_traffic-IsMap ops _ (put-IsMap tag _ _ (put-IsMap tag new_traffic_counter h u)))
      | inr (d, found) ↦
          rw (hook_traffic, tc, found) (hook_traffic-IsMap ops _ (put-IsMap tag (step d op) h u))
    ]

pub commit_snapshots-IsMap : (snap : Delta) (h : Hook) → IsMap h → IsMap (commit_snapshots snap h)
unfolding commit_snapshots commit_inbound
commit_snapshots-IsMap [] h u = u
commit_snapshots-IsMap ((tag, users) ∷ snap) h u = elim (Option-cases (lookup tag h)) [
  | inl missing ↦ rw (commit_snapshots, commit_inbound, missing) (commit_snapshots-IsMap snap h u)
  | inr (d, found) ↦
      rw (commit_snapshots, commit_inbound, found)
        (commit_snapshots-IsMap snap _ (put-IsMap tag (commit_snapshot users d) h u))
]

-- The removal of absent users is one on the counters of each inbound.
pub counter_at-remove_absent_all :
    (active : Map Text (Unit {0})) (t : Text) (h : Hook)
    → counter_at t (remove_absent_all active h) ≡ remove_absent active (counter_at t h)
unfolding lookup remove_absent_all counter_at remove_absent remove_from
counter_at-remove_absent_all active t [] = refl
counter_at-remove_absent_all active t ((tag, d) ∷ h) = elim (Bool-cases (tag == t)) [
  | inl same ↦ rw same refl
  | inr other ↦ rw other (counter_at-remove_absent_all active t h)
]

remove_absent_all-none :
    (active : Map Text (Unit {0})) (t : Text) (h : Hook)
    → lookup t h ≡ none
    → lookup t (remove_absent_all active h) ≡ none
unfolding lookup remove_absent_all
remove_absent_all-none active t [] n = refl
remove_absent_all-none active t ((tag, d) ∷ h) n = ground (arith, remove_absent_all-none active t h)

pub remove_absent_all-IsMap :
    (active : Map Text (Unit {0})) (h : Hook) → IsMap h → IsMap (remove_absent_all active h)
unfolding remove_absent_all
remove_absent_all-IsMap active [] u = tt
remove_absent_all-IsMap active ((tag, d) ∷ h) u =
    (remove_absent_all-none active tag h u.0, remove_absent_all-IsMap active h u.1)
