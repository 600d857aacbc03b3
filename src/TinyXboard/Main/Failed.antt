-- ===== src/TinyXboard/Main/Failed.antt =====
-- What an end with an error leaves of the traffic (tiny-xboard/main.go).
use mini_sb_xboard_agent.Base.{
  ◌≡◌, refl, ap, ◌∙◌, Bool, Option, none, some, List, [], ◌∷◌, All, arith, ◌==◌, Result, ok, err,
  ◌⊎◌, Bool-cases, Result-cases, Option-cases, inl, inr,
}
use mini_sb_xboard_agent.Base.Text.{lit, text_eq}
use mini_sb_xboard_agent.Base.Map.{lookup}
use mini_sb_xboard_agent.TinyXboard.Store.State.{Env, World}
use mini_sb_xboard_agent.TinyXboard.Store.LoadUsers.{refresh_users}
use mini_sb_xboard_agent.TinyXboard.Auth.{authenticate}
use mini_sb_xboard_agent.TinyXboard.Api.Handlers.{
  Body, Request, fields, oversized, malformed, push_fields, push_body, handle_user, handle_push,
}
use mini_sb_xboard_agent.TinyXboard.Main.{
  Event, user_asked, push_asked, config_asked, flush_began, flush_copied, flush_written, Running,
  idle, handle, play, Ending, Stop, cancelled, serve_returned, serve, shut_down, flush_last,
}
use mini_sb_xboard_agent.TinyXboard.Main.Quiet.{traffic-refresh_users, handle_config-same}

-- No flush.
abbrev pub IsRequest : Event → Type 0
IsRequest (user_asked env r) = Unit
IsRequest (push_asked env r) = Unit
IsRequest (config_asked r) = Unit
IsRequest _ = ⊥

disk-push_body : (b : Body) (w : World) → (push_body b w).0.disk ≡ w.disk
unfolding push_body push_fields
disk-push_body oversized w = refl
disk-push_body malformed w = refl
disk-push_body (fields raw) w = elim (Option-cases (lookup (lit "traffic") raw)) [
  | inl missing ↦ rw (push_body, push_fields, missing) refl
  | inr (v, found) ↦ elim (Option-cases v.as_entries) [
    | inl bad ↦ rw (push_body, push_fields, found, bad) refl
    | inr (es, good) ↦ rw (push_body, push_fields, found, good) refl
  ]
]

traffic-handle_push :
    (env : Env) (r : Request) (w : World) → (handle_push env r w).0.disk.traffic ≡ w.disk.traffic
unfolding handle_push
traffic-handle_push env r w = elim (Bool-cases (r.method == lit "POST")) [
  | inr other ↦ rw (handle_push, other) refl
  | inl post ↦ elim (Result-cases (authenticate w.store r.credentials)) [
    | inl (_, refused) ↦ rw (handle_push, post, refused) refl
    | inr (_, allowed) ↦ elim (Bool-cases r.slot_free) [
      | inr busy ↦ rw (handle_push, post, allowed, busy) refl
      | inl free ↦
          rw (handle_push, post, allowed, free)
            (ap (λ d. d.traffic) (disk-push_body r.body (refresh_users env w).0)
              ∙ traffic-refresh_users env w)
    ]
  ]
]

traffic-handle_user :
    (env : Env) (r : Request) (w : World) → (handle_user env r w).0.disk.traffic ≡ w.disk.traffic
unfolding handle_user
traffic-handle_user env r w = elim (Bool-cases (r.method == lit "GET")) [
  | inr other ↦ rw (handle_user, other) refl
  | inl get ↦ elim (Result-cases (authenticate w.store r.credentials)) [
    | inl (_, refused) ↦ rw (handle_user, get, refused) refl
    | inr (_, allowed) ↦ rw (handle_user, get, allowed) (traffic-refresh_users env w)
  ]
]

traffic-handle :
    (e : Event) (w : Running) → IsRequest e → (handle e w).0.disk.traffic ≡ w.0.disk.traffic
unfolding handle
traffic-handle (user_asked env r) (w, f) q = traffic-handle_user env r w
traffic-handle (push_asked env r) (w, f) q = traffic-handle_push env r w
traffic-handle (config_asked r) (w, f) q = ap (λ x. x.disk.traffic) (handle_config-same r w)
traffic-handle flush_began w q = elim q [ ]
traffic-handle flush_copied w q = elim q [ ]
traffic-handle (flush_written env) w q = elim q [ ]

traffic-play :
    (es : List Event) (w : Running)
    → All IsRequest es
    → (play es w).0.disk.traffic ≡ w.0.disk.traffic
unfolding play
traffic-play [] w q = refl
traffic-play (e ∷ es) w q = traffic-play es (handle e w) q.1 ∙ traffic-handle e w q.0

module _ {E : Type 0} (is_closed : E → Bool) (events : List Event) (ending : Ending E)
    (w w' : World) (x : E) where
  -- No write comes after the requests.
  Unsaved : Type 0
  Unsaved =
      (w' ≡ (play events (w, idle)).0) ⊎ (w' ≡ (play ending.in_flight (play events (w, idle))).0)

  flush_last_err :
      (r : Result E (Unit {0})) (w : World)
      → flush_last is_closed ending.last r w ≡ (w', err x)
      → w' ≡ w
  unfolding flush_last
  flush_last_err (ok _) w h = absurd (ground arith)
  flush_last_err (err e) w h = elim (Bool-cases (is_closed e)) [
    | inl closed ↦ absurd (ground (arith, closed))
    | inr other ↦ ground (arith, other)
  ]

  shut_down_err :
      (received : Option (Result E (Unit {0})))
      → shut_down is_closed ending received (play events (w, idle)) ≡ some (w', err x)
      → w' ≡ (play ending.in_flight (play events (w, idle))).0
  unfolding shut_down
  shut_down_err none h = elim (Result-cases ending.shutdown) [
    | inl (e, failed) ↦ ground (arith, failed)
    | inr (_, done) ↦ absurd (ground (arith, done))
  ]
  shut_down_err (some r) h = elim (Result-cases ending.shutdown) [
    | inl (e, failed) ↦ ground (arith, failed)
    | inr (_, done) ↦ flush_last_err r _ (ground (arith, done))
  ]

  serve_err :
      (stop : Stop E)
      → ending.stop ≡ stop
      → serve is_closed events ending w ≡ some (w', err x)
      → Unsaved
  unfolding serve Unsaved
  serve_err cancelled e h = inr (shut_down_err (some ending.serve_after) (ground (arith, e)))
  serve_err (serve_returned (ok _)) e h = inr (shut_down_err none (ground (arith, e)))
  serve_err (serve_returned (err y)) e h = elim (Bool-cases (is_closed y)) [
    | inl closed ↦ inr (shut_down_err none (ground (arith, e, closed)))
    | inr other ↦ inl (ground (arith, e, other))
  ]

  -- When `serve` returns an error, because the listener broke, because `Shutdown` ran out of time or
  -- because `Serve` failed after it, the files of the traffic are what they were before the requests
  -- since the last flush: all traffic that these requests were told is accepted is in memory only, and
  -- the program ends.
  pub serve_fails_unsaved :
      serve is_closed events ending w ≡ some (w', err x)
      → All IsRequest events
      → All IsRequest ending.in_flight
      → w'.disk.traffic ≡ w.disk.traffic
  unfolding Unsaved
  serve_fails_unsaved h qe qi =
      let kept = traffic-play events (w, idle) qe in
      elim (serve_err ending.stop refl h) [
        | inl e ↦ ap (λ y. y.disk.traffic) e ∙ kept
        | inr e ↦
            ap (λ y. y.disk.traffic) e
            ∙ traffic-play ending.in_flight (play events (w, idle)) qi
            ∙ kept
      ]
