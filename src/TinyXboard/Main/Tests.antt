-- ===== src/TinyXboard/Main/Tests.antt =====
-- The theorems on the end of the program at concrete inputs.
use mini_sb_xboard_agent.Base.{
  Bool-cases, inl, inr, ap, ◌≡◌, refl, true, arith, false, none, some, List, [], ◌∷◌, ok, err,
}
use mini_sb_xboard_agent.Base.Int.{ℤ, pos}
use mini_sb_xboard_agent.Base.Text.{Text, lit, is_empty}
use mini_sb_xboard_agent.TinyXboard.Schema.{TrafficFile}
use mini_sb_xboard_agent.TinyXboard.Persist.{Codec, holds}
use mini_sb_xboard_agent.TinyXboard.Store.State.{World}
use mini_sb_xboard_agent.TinyXboard.Store.Save.{flush_traffic_if_dirty, traffic_document}
use mini_sb_xboard_agent.TinyXboard.Api.Handlers.{Request, fields, handle_push}
use mini_sb_xboard_agent.TinyXboard.Fixtures.{busy_world, empty_disk, env, fixed, busy_traffic}
use mini_sb_xboard_agent.TinyXboard.Main.{
  Event, handle, config_asked, claim, claimed, push_asked, flush_began, flush_copied, flush_written,
  idle, play, Ending, cancelled, serve_returned, serve, shut_down, flush_last,
}
use mini_sb_xboard_agent.TinyXboard.Main.Laws.{serve_persists}
use mini_sb_xboard_agent.TinyXboard.Main.Failed.{serve_fails_unsaved}

-- A push of ten and twenty bytes for user 7.
abbrev push : Request
push = record {
  method = lit "POST";
  credentials = record { node_id = lit "2"; token = lit "n2"; node_type = lit "hy2" };
  slot_free = true;
  body = fields ((lit "7", record { as_entries = none; as_pair = some (pos 10, pos 20) }) ∷ []);
}

abbrev quiet_world : World
quiet_world = record busy_world { disk = empty_disk }

abbrev events : List Event
events =
    push_asked env push ∷ flush_began ∷ flush_copied ∷ push_asked env push ∷ flush_written env ∷ []

-- The only error that counts as closed is the empty one.
abbrev graceful : Ending Text
graceful = record {
  stop = cancelled;
  in_flight = push_asked env push ∷ [];
  shutdown = ok tt;
  serve_after = err [];
  last = env;
}

abbrev codec : Codec TrafficFile
codec = fixed busy_traffic

abbrev last_world : World
last_world =
    flush_traffic_if_dirty env (play graceful.in_flight (play events (quiet_world, idle))).0

served : serve is_empty events graceful quiet_world ≡ some (last_world, ok tt)
unfolding serve shut_down flush_last
served = refl

-- The flusher is at rest at the end, whether it found something to write or not.
abbrev rest : List Event
rest = flush_copied ∷ push_asked env push ∷ flush_written env ∷ []

rest_ends_idle : (w : World) → (play graceful.in_flight (play rest (claim w))).1 ≡ idle
unfolding play handle
rest_ends_idle w = elim (Bool-cases w.store.dirty) [
  | inl dirty ↦
      let taken : claim w ≡ (record w { store = record w.store { dirty = false } }, claimed) =
        ground (arith, dirty) in
      ap (λ x. (play graceful.in_flight (play rest x)).1) taken
  | inr clean ↦
      let left : claim w ≡ (w, idle) = ground (arith, clean) in
      ap (λ x. (play graceful.in_flight (play rest x)).1) left
]

events_end_idle : (play graceful.in_flight (play events (quiet_world, idle))).1 ≡ idle
unfolding play handle
events_end_idle = rest_ends_idle (handle_push env push quiet_world).0

serve_persists_example :
    (last_world.store.dirty ≡ false)
    × (now : ℤ) × (last_world.disk.traffic.main
        ≡ holds (codec.encode (traffic_document now last_world.store.traffic)))
serve_persists_example =
    serve_persists is_empty events graceful quiet_world last_world codec served
      (tt, (tt, (tt, (tt, (refl, tt))))) (tt, tt) refl refl
      (λ clean. absurd (ground (arith, clean))) events_end_idle

abbrev broken : Ending Text
broken = record graceful { stop = serve_returned (err (lit "accept: too many open files")) }

abbrev requests : List Event
requests = push_asked env push ∷ push_asked env push ∷ []

failed :
    serve is_empty requests broken quiet_world
    ≡ some ((play requests (quiet_world, idle)).0, err (lit "accept: too many open files"))
unfolding serve
failed = refl

serve_fails_unsaved_example :
    (play requests (quiet_world, idle)).0.disk.traffic ≡ quiet_world.disk.traffic
serve_fails_unsaved_example =
    serve_fails_unsaved is_empty requests broken quiet_world (play requests (quiet_world, idle)).0
      (lit "accept: too many open files") failed (tt, (tt, tt)) (tt, tt)

abbrev stopped_early : Ending Text
stopped_early = record graceful { in_flight = []; serve_after = ok tt }

abbrev asked : List Event
asked = config_asked push ∷ []
