-- ===== src/TinyXboard/Main/Quiet.antt =====
-- What the requests do to the traffic and its file (tiny-xboard/api.go, tiny-xboard/store.go).
use mini_sb_xboard_agent.Base.{
  ℕ, ◌≡◌, refl, sym, ap, ◌∙◌, false, List, [], ◌∷◌, arith, ◌==◌, Bool-cases, Result-cases,
  Option-cases, inl, inr,
}
use mini_sb_xboard_agent.Base.Int.{ℤ, int_eq}
use mini_sb_xboard_agent.Base.Text.{Text, lit, text_eq, atoi}
use mini_sb_xboard_agent.Base.Map.{Map, retain, lookup}
use mini_sb_xboard_agent.TinyXboard.Schema.{User, Traffic}
use mini_sb_xboard_agent.TinyXboard.Store.State.{Store, Env, World, prune_to}
use mini_sb_xboard_agent.TinyXboard.Store.Save.{save_users}
use mini_sb_xboard_agent.TinyXboard.Store.LoadUsers.{
  any_unknown, load_users_from_disk, refresh_users, prune_after_refresh, with_users,
}
use mini_sb_xboard_agent.TinyXboard.Store.Users.{accumulate}
use mini_sb_xboard_agent.TinyXboard.Store.Users.Operations.{refresh_users_cases}
use mini_sb_xboard_agent.TinyXboard.Auth.{authenticate}
use mini_sb_xboard_agent.TinyXboard.Api.Handlers.{
  Entry, RawMessage, Body, Request, push_entries, push_pair, push_pairs, push_fields, push_body,
  count_accepted, handle_user, handle_config, handle_push, fields, oversized, malformed,
}

-- A step that leaves the counters clean has not touched them or their file.
abbrev pub Quiet : World → World → Type 0
Quiet w w' =
    w'.store.dirty ≡ false
    → (w.store.dirty ≡ false)
      × (w'.store.traffic ≡ w.store.traffic)
      × (w'.disk.traffic ≡ w.disk.traffic)

Quiet-refl : (w : World) → Quiet w w
Quiet-refl w clean = (clean, refl, refl)

Quiet-trans : (a b c : World) → Quiet a b → Quiet b c → Quiet a c
Quiet-trans a b c f g clean =
    let (cb, tb, db) = g clean in let (ca, ta, da) = f cb in (ca, tb ∙ ta, db ∙ da)

accumulate-clean :
    (uid up down : ℤ) (s : Store)
    → (accumulate uid up down s).0.dirty ≡ false
    → (accumulate uid up down s).0 ≡ s
unfolding accumulate
accumulate-clean uid up down s clean = ground arith

-- The loops over the entries and over the fields.
push_entries-clean :
    (n : ℕ) (es : List Entry) (s : Store)
    → (push_entries n es s).0.dirty ≡ false
    → (push_entries n es s).0 ≡ s
unfolding push_entries count_accepted
push_entries-clean n [] s clean = refl
push_entries-clean n (e ∷ es) s clean =
    let s' = (accumulate e.uid e.up e.down s).0 in
    let same = push_entries-clean (count_accepted n e.uid e.up e.down s).1 es s' clean in
    same ∙ accumulate-clean e.uid e.up e.down s (ap (λ x. x.dirty) (sym same) ∙ clean)

push_pair-clean :
    (n : ℕ) (key : Text) (v : RawMessage) (s : Store)
    → (push_pair n key v s).0.dirty ≡ false
    → (push_pair n key v s).0 ≡ s
unfolding push_pair count_accepted
push_pair-clean n key v s clean = elim (Option-cases v.as_pair) [
  | inl missing ↦ rw (push_pair, missing) refl
  | inr (d, pair) ↦ elim (Option-cases (atoi key)) [
    | inl no_int ↦ rw (push_pair, pair, no_int) refl
    | inr (id, number) ↦
        let done : (push_pair n key v s).0 ≡ (accumulate id d.0 d.1 s).0 =
          rw (push_pair, pair, number) refl in
        done ∙ accumulate-clean id d.0 d.1 s (ap (λ x. x.dirty) (sym done) ∙ clean)
  ]
]

push_pairs-clean :
    (n : ℕ) (m : Map Text RawMessage) (s : Store)
    → (push_pairs n m s).0.dirty ≡ false
    → (push_pairs n m s).0 ≡ s
unfolding push_pairs
push_pairs-clean n [] s clean = refl
push_pairs-clean n ((key, v) ∷ m) s clean =
    let first = push_pair n key v s in
    let same = push_pairs-clean first.1 m first.0 clean in
    same ∙ push_pair-clean n key v s (ap (λ x. x.dirty) (sym same) ∙ clean)

-- Counters that all belong to known users stay.
prune_to-known :
    (users : Map ℤ User) (m : Map ℤ Traffic) → any_unknown users m ≡ false → prune_to users m ≡ m
unfolding prune_to retain any_unknown
prune_to-known users [] known = refl
prune_to-known users ((id, t) ∷ m) known = ground (arith, prune_to-known users m)

prune_after_refresh-Quiet : (env : Env) (w : World) → Quiet w (prune_after_refresh env w)
unfolding prune_after_refresh
prune_after_refresh-Quiet env w clean =
    let known : any_unknown w.store.users w.store.traffic ≡ false = ground arith in
    (ground arith, prune_to-known w.store.users w.store.traffic known, refl)

save_users-Quiet : (env : Env) (w : World) → Quiet w (save_users env w).0
unfolding save_users
save_users-Quiet env w clean = (clean, refl, refl)

pub traffic-refresh_users :
    (env : Env) (w : World) → (refresh_users env w).0.disk.traffic ≡ w.disk.traffic
unfolding refresh_users save_users prune_after_refresh with_users
traffic-refresh_users env w =
    elim (Result-cases (load_users_from_disk env.codecs.users w.disk.users)) [
      | inl (e, failed) ↦ ground arith
      | inr ((uf, used), loaded) ↦ ground arith
    ]

refresh_users-Quiet : (env : Env) (w : World) → Quiet w (refresh_users env w).0
unfolding with_users
refresh_users-Quiet env w clean =
    let file = traffic-refresh_users env w in
    elim (refresh_users_cases env w) [
      | inl same ↦ (ap (λ s. s.dirty) (sym same) ∙ clean, ap (λ s. s.traffic) same, file)
      | inr (uf, h, e) ↦
          let (was, counters, _) =
            prune_after_refresh-Quiet env (with_users env uf w)
              (ap (λ s. s.dirty) (sym e) ∙ clean) in
          (was, ap (λ s. s.traffic) e ∙ counters, file)
    ]

-- A world with another store.
put_store-Quiet :
    (w : World) (s : Store) → (s.dirty ≡ false → s ≡ w.store) → Quiet w (record w { store = s })
put_store-Quiet w s same clean =
    let e = same clean in (ap (λ x. x.dirty) (sym e) ∙ clean, ap (λ x. x.traffic) e, refl)

push_body-Quiet : (b : Body) (w : World) → Quiet w (push_body b w).0
unfolding push_body push_fields
push_body-Quiet oversized w = Quiet-refl w
push_body-Quiet malformed w = Quiet-refl w
push_body-Quiet (fields raw) w = elim (Option-cases (lookup (lit "traffic") raw)) [
  | inl missing ↦
      rw (push_body, push_fields, missing) (put_store-Quiet w _ (push_pairs-clean 0 raw w.store))
  | inr (v, found) ↦ elim (Option-cases v.as_entries) [
    | inl bad ↦ rw (push_body, push_fields, found, bad) (Quiet-refl w)
    | inr (es, good) ↦
        rw (push_body, push_fields, found, good)
          (put_store-Quiet w _ (push_entries-clean 0 es w.store))
  ]
]

pub handle_push-Quiet : (env : Env) (r : Request) (w : World) → Quiet w (handle_push env r w).0
unfolding handle_push
handle_push-Quiet env r w = elim (Bool-cases (r.method == lit "POST")) [
  | inr other ↦ rw (handle_push, other) (Quiet-refl w)
  | inl post ↦ elim (Result-cases (authenticate w.store r.credentials)) [
    | inl (_, refused) ↦ rw (handle_push, post, refused) (Quiet-refl w)
    | inr (_, allowed) ↦ elim (Bool-cases r.slot_free) [
      | inr busy ↦ rw (handle_push, post, allowed, busy) (Quiet-refl w)
      | inl free ↦
          let w' = (refresh_users env w).0 in
          rw (handle_push, post, allowed, free)
            (Quiet-trans w w' (push_body r.body w').0 (refresh_users-Quiet env w)
              (push_body-Quiet r.body w'))
    ]
  ]
]

pub handle_user-Quiet : (env : Env) (r : Request) (w : World) → Quiet w (handle_user env r w).0
unfolding handle_user
handle_user-Quiet env r w = elim (Bool-cases (r.method == lit "GET")) [
  | inr other ↦ rw (handle_user, other) (Quiet-refl w)
  | inl get ↦ elim (Result-cases (authenticate w.store r.credentials)) [
    | inl (_, refused) ↦ rw (handle_user, get, refused) (Quiet-refl w)
    | inr (_, allowed) ↦ rw (handle_user, get, allowed) (refresh_users-Quiet env w)
  ]
]

pub handle_config-same : (r : Request) (w : World) → (handle_config r w).0 ≡ w
unfolding handle_config
handle_config-same r w = elim (Bool-cases (r.method == lit "GET")) [
  | inr other ↦ rw (handle_config, other) refl
  | inl get ↦ elim (Result-cases (authenticate w.store r.credentials)) [
    | inl (_, refused) ↦ rw (handle_config, get, refused) refl
    | inr (_, allowed) ↦ rw (handle_config, get, allowed) refl
  ]
]
