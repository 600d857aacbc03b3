-- ===== src/Agent/Hook/Exact.antt =====
-- A flush of the traffic of all inbounds, as the agent wires it: the hook's counters under the
-- synchroniser's `flush` (cmd/mini-sb-agent/main.go, panelapi/sync.go, counter/counter.go).
use mini_sb_xboard_agent.Base.{
  ℕ, ◌+◌, ◌≤◌, ◌≡◌, refl, sym, ap, ◌∙◌, true, false, List, arith, All, ltb, ◌||◌, Result, ok, err,
  Bool-cases, Result-cases, inl, inr,
}
use mini_sb_xboard_agent.Base.Int.{ℤ, max_int64}
use mini_sb_xboard_agent.Base.Text.{Text, text_eq}
use mini_sb_xboard_agent.Base.Map.{Map, IsMap, lookup}
use mini_sb_xboard_agent.Counter.Traffic.{
  TrafficStorage, TrafficCounter, snapshot_delta, commit_snapshot,
}
use mini_sb_xboard_agent.Counter.Traffic.Ledger.{IsValid, view, or_zero}
use mini_sb_xboard_agent.Counter.Traffic.Run.{Op}
use mini_sb_xboard_agent.Counter.Traffic.Push.{
  account, IsTraffic, bytes_read, bytes_written, reported, lookup-snapshot_delta,
  snapshot_delta-IsMap, commit_after_traffic,
}
use mini_sb_xboard_agent.PanelApi.Client.{Delta, is_numeric_user}
use mini_sb_xboard_agent.PanelApi.Sync.{Callbacks, commit_delta, has_traffic, numeric_only, flush}
use mini_sb_xboard_agent.PanelApi.Sync.Laws.{
  flush_idle, flush_failed, flush_pushed, or_empty, lookup-numeric_only, numeric_only-IsMap,
  lookup-commit_delta, commit_delta-IsMap, no_traffic,
}
use mini_sb_xboard_agent.Agent.Hook.{Hook, snapshot_deltas, commit_snapshots}
use mini_sb_xboard_agent.Counter.Traffic.Push.{traffic-account, reported-account}
use mini_sb_xboard_agent.Agent.Hook.Flush.{
  snapshot_deltas-IsMap, lookup-snapshot_deltas, counter_at, counter_at-commit_snapshots,
  counter_at-hook_traffic, hook_traffic, ops_at,
}

-- The functions that `main` gives the synchroniser for the counters; `flush` does not call the third.
abbrev pub hook_calls : {E : Type 0} → Callbacks Hook E
hook_calls = record {
  snapshot = snapshot_deltas;
  commit = commit_snapshots;
  users = λ _ h. (h, ok tt);
}

-- The account that a flush leaves: what was reported is committed if and only if the push succeeded.
abbrev pub after_push : {E : Type 0} → Result E (Unit {0}) → ℕ → ℕ → ℕ → ℕ → ℕ → ℕ → TrafficStorage
after_push (ok _) p q r s b d = account (p + q) b (r + s) d
after_push (err _) p q r s b d = account p (q + b) r (s + d)

-- The account of a user in an inbound after a flush during which the operations were done.
abbrev pub Flushed :
    {E : Type 0} → Result E (Unit {0}) → Text → Text → List Op → ℕ → ℕ → ℕ → ℕ → Hook → Type 0
Flushed pushed tag v ops p q r s h =
    or_zero (view (counter_at tag h) v)
    ≡ after_push pushed p q r s (bytes_read v ops) (bytes_written v ops)

module _ {E : Type 0} (push : Delta → Result E (Unit {0})) (h : Hook) (tag v : Text)
    (ops : List (Text × Op)) (p q r s : ℕ) (unique : IsMap h) (valid : IsValid (counter_at tag h))
    (traffic : All IsTraffic (ops_at tag ops)) (numeric : is_numeric_user v ≡ true)
    (before : or_zero (view (counter_at tag h) v) ≡ account p q r s)
    (fits_up : p + (q + bytes_read v (ops_at tag ops)) ≤ max_int64)
    (fits_down : r + (s + bytes_written v (ops_at tag ops)) ≤ max_int64) where
  abbrev c : TrafficCounter
  c = counter_at tag h

  abbrev here : List Op
  here = ops_at tag ops

  Left : Hook → Type 0
  Left = Flushed (push (snapshot_deltas h)) tag v (ops_at tag ops) p q r s

  users_of : Map Text (ℤ × ℤ)
  users_of = or_empty (lookup tag (commit_delta (snapshot_deltas h)))

  users_of_is : users_of ≡ numeric_only (snapshot_delta c)
  unfolding users_of
  users_of_is =
      lookup-commit_delta tag (snapshot_deltas h) (snapshot_deltas-IsMap h unique)
      ∙ ap numeric_only (lookup-snapshot_deltas tag h unique)

  users_of-IsMap : IsMap users_of
  users_of-IsMap =
      rw users_of_is (numeric_only-IsMap (snapshot_delta c) (snapshot_delta-IsMap c valid))

  lookup-users_of : lookup v users_of ≡ reported (view c v)
  lookup-users_of =
      ap (lookup v) users_of_is
      ∙ lookup-numeric_only v (snapshot_delta c) (snapshot_delta-IsMap c valid)
      ∙ rw numeric (lookup-snapshot_delta c v valid)

  committed_case :
      push (snapshot_deltas h) ≡ ok tt
      → Left (commit_snapshots (commit_delta (snapshot_deltas h)) (hook_traffic ops h))
  unfolding users_of Left
  committed_case pushed =
      ap (λ x. or_zero (view x v))
        (counter_at-commit_snapshots tag (commit_delta (snapshot_deltas h)) (hook_traffic ops h)
            (commit_delta-IsMap (snapshot_deltas h) (snapshot_deltas-IsMap h unique))
          ∙ ap (commit_snapshot users_of) (counter_at-hook_traffic tag ops h))
      ∙ rw pushed (
          commit_after_traffic c v users_of here p q r s valid users_of-IsMap lookup-users_of
            traffic before fits_up fits_down)

  kept_case :
      account p (q + bytes_read v here) r (s + bytes_written v here)
        ≡ after_push (push (snapshot_deltas h)) p q r s (bytes_read v here) (bytes_written v here)
      → Left (hook_traffic ops h)
  unfolding Left
  kept_case e =
      ap (λ x. or_zero (view x v)) (counter_at-hook_traffic tag ops h)
      ∙ traffic-account c v here p q r s valid traffic before fits_up fits_down
      ∙ e

  idle_push :
      (ltb 0 q || ltb 0 s) ≡ false
      → (b d : ℕ) (o : Result E (Unit {0})) → account p (q + b) r (s + d) ≡ after_push o p q r s b d
  idle_push idle b d (ok _) = ground arith
  idle_push idle b d (err e) = refl

  nothing_reported : has_traffic (snapshot_deltas h) ≡ false → (ltb 0 q || ltb 0 s) ≡ false
  nothing_reported idle =
      let gone = no_traffic tag v (snapshot_deltas h) idle numeric in
      let found =
        ap (lookup v) (lookup-snapshot_deltas tag h unique) ∙ lookup-snapshot_delta c v valid in
      ground (arith, reported-account p q r s (omega arith) (omega arith) (view c v) before)

  -- For every inbound and every user with a number, from an account with some bytes
  -- committed and others counted since: whatever the connections read and write during a flush, as
  -- long as the sums fit an int64, after it the bytes that were counted before its snapshot are
  -- committed and those since then are not, if the push succeeded; if it failed, nothing is committed
  -- and all of it is still counted.
  pub flush_exact :
      Flushed
        (push (snapshot_deltas h))
        tag
        v
        (ops_at tag ops)
        p
        q
        r
        s
        (flush hook_calls push (hook_traffic ops) h)
  unfolding Left
  flush_exact = elim (Bool-cases (has_traffic (snapshot_deltas h))) [
    | inr idle ↦
        rw (flush_idle hook_calls push (hook_traffic ops) h idle)
          (kept_case (idle_push (nothing_reported idle) _ _ (push (snapshot_deltas h))))
    | inl busy ↦ elim (Result-cases (push (snapshot_deltas h))) [
      | inl (e, failed) ↦ rw (flush_failed hook_calls push (hook_traffic ops) h failed) (
          kept_case (
            sym (ap (λ o. after_push o p q r s (bytes_read v here) (bytes_written v here)) failed)))
      | inr (_, pushed) ↦
          rw (flush_pushed hook_calls push (hook_traffic ops) h busy pushed) (committed_case pushed)
    ]
  ]
