-- ===== src/TinyXboard/Main.antt =====
-- tiny-xboard/main.go: `run`, `serve` and `runTrafficFlusher`. The HTTP server, the listener and the
-- signals are outside: which requests come, how far the flusher gets between them and how the server ends is given.
pub mod Quiet
pub mod Laws
pub mod Failed
mod Tests
use mini_sb_xboard_agent.Base.{
  ℕ, Bool, true, false, Option, none, some, List, [], ◌∷◌, if◌then◌else◌, not, Result, ok, err,
}
use mini_sb_xboard_agent.Base.Int.{ℤ, pos, leb_ℤ, wrap64, ◌*ℤ◌}
use mini_sb_xboard_agent.Base.Map.{Map}
use mini_sb_xboard_agent.TinyXboard.Persist.{atomic_write_with_backup}
use mini_sb_xboard_agent.TinyXboard.Schema.{NodeEntry, Traffic, default_traffic_flush_interval}
use mini_sb_xboard_agent.TinyXboard.Store.State.{Disk, Env, World, StoreError}
use mini_sb_xboard_agent.TinyXboard.Store.Save.{
  flush_traffic_if_dirty, runtime_flush_interval, traffic_document,
}
use mini_sb_xboard_agent.TinyXboard.Store.LoadTraffic.{new_store}
use mini_sb_xboard_agent.TinyXboard.Api.Handlers.{Request, handle_user, handle_config, handle_push}

-- What happens while the program runs: a request to one of the three routes, or a part of a flush by the
-- goroutine of `runTrafficFlusher`, which the requests come between: it takes the dirty flag, copies the
-- counters, and writes them.
pub data Event : Type 0 where
  user_asked push_asked : Env → Request → Event
  config_asked : Request → Event
  flush_began flush_copied : Event
  flush_written : Env → Event

-- How far the flusher is.
pub data Flusher : Type 0 where
  idle claimed : Flusher
  copied : Map ℤ Traffic → Flusher

abbrev pub Running : Type 0
Running = World × Flusher

-- The compare-and-swap of `flushTrafficIfDirty`.
abbrev pub claim : World → Running
claim w =
    if w.store.dirty
    then (record w { store = record w.store { dirty = false } }, claimed)
    else (w, idle)

-- The write of `SaveTraffic` for counters that were copied before, and the flag after a failure.
unfoldable pub write_copy : Env → Map ℤ Traffic → World → World
write_copy env traffic w =
    let (fs, r) =
      atomic_write_with_backup env.faults
        (env.codecs.traffic.encode (traffic_document env.unix_time traffic)) w.disk.traffic in
    elim r [
      | err _ ↦ record w {
        store = record w.store { dirty = true };
        disk = record w.disk { traffic = fs };
      }
      | ok _ ↦ record w { disk = record w.disk { traffic = fs } }
    ]

unfoldable pub handle : Event → Running → Running
unfolding write_copy
handle (user_asked env r) (w, f) = ((handle_user env r w).0, f)
handle (push_asked env r) (w, f) = ((handle_push env r w).0, f)
handle (config_asked r) (w, f) = ((handle_config r w).0, f)
handle flush_began (w, idle) = claim w
handle flush_began (w, f) = (w, f)
handle flush_copied (w, claimed) = (w, copied w.store.traffic)
handle flush_copied (w, f) = (w, f)
handle (flush_written env) (w, copied traffic) = (write_copy env traffic w, idle)
handle (flush_written env) (w, f) = (w, f)

unfoldable pub play : List Event → Running → Running
play [] w = w
play (e ∷ es) w = play es (handle e w)

-- A second, as a `time.Duration`.
abbrev pub second : ℤ
second = pos 1000000000

-- The interval of `runTrafficFlusher`.
unfoldable pub flusher_interval : List NodeEntry → ℤ
flusher_interval nodes =
    let interval = wrap64 (runtime_flush_interval nodes *ℤ second) in
    if leb_ℤ interval (pos 0) then wrap64 (default_traffic_flush_interval *ℤ second) else interval

-- What the `select` of `serve` receives: the context is done, or `Serve` has returned.
pub data Stop (E : Type 0) : Type 0 where
  cancelled : Stop E
  serve_returned : Result E (Unit {0}) → Stop E

-- How a server ends: what stops it, the requests that finish while it drains, what `Shutdown`
-- returns, what `Serve` returns after it, and what the last write meets.
pub record Ending (E : Type 0) : Type 0 where
  pub stop : Stop E
  pub in_flight : List Event
  pub shutdown : Result E (Unit {0})
  pub serve_after : Result E (Unit {0})
  pub last : Env

-- The end of `serve`; `none` is a return that never comes.
abbrev pub Ended : Type 0 → Type 0
Ended E = Option (World × Result E (Unit {0}))

module _ {E : Type 0} (is_closed : E → Bool) where
  -- The last receive and what follows it.
  unfoldable pub flush_last : Env → Result E (Unit {0}) → World → World × Result E (Unit {0})
  flush_last env (err e) w =
      if not (is_closed e) then (w, err e) else (flush_traffic_if_dirty env w, ok tt)
  flush_last env (ok _) w = (flush_traffic_if_dirty env w, ok tt)

  -- After the `select`. The channel has one value in all: if the `select` took it, the second receive
  -- waits for ever. What the flusher does meanwhile is among the events.
  unfoldable pub shut_down : Ending E → Option (Result E (Unit {0})) → Running → Ended E
  unfolding flush_last
  shut_down ending received w =
      let w' = (play ending.in_flight w).0 in
      elim ending.shutdown [
        | err e ↦ some (w', err e)
        | ok _ ↦ elim received [ none ↦ none | some r ↦ some (flush_last ending.last r w') ]
      ]

  -- `serve`. Nothing waits for the flusher.
  unfoldable pub serve : List Event → Ending E → World → Ended E
  unfolding shut_down
  serve events ending w =
      let w' = play events (w, idle) in
      elim ending.stop [
        | cancelled ↦ shut_down ending (some ending.serve_after) w'
        | serve_returned (ok _) ↦ shut_down ending none w'
        | serve_returned (err e) ↦
            if not (is_closed e) then some (w'.0, err e) else shut_down ending none w'
      ]

pub data RunError (E : Type 0) : Type 0 where
  no_store : StoreError → RunError E
  not_listening not_serving : E → RunError E

abbrev lift_served :
    {E : Type 0} → World × Result E (Unit {0}) → World × Result (RunError E) (Unit {0})
lift_served (w, ok _) = (w, ok tt)
lift_served (w, err e) = (w, err (not_serving e))

-- `run`: what `net.Listen` returns is given. The three phases of `NewStore` have files of their own.
unfoldable pub run :
    {E : Type 0}
    → (E → Bool)
    → Env
    → Env
    → Env
    → Disk
    → Result E (Unit {0})
    → List Event
    → Ending E
    → Option (World × Result (RunError E) (Unit {0}))
run is_closed env_node env_users env_traffic disk listening events ending =
    let (w, opened) = new_store env_node env_users env_traffic disk in
    elim opened [
      | err e ↦ some (w, err (no_store e))
      | ok _ ↦ elim listening [
        | err e ↦ some (w, err (not_listening e))
        | ok _ ↦ elim (serve is_closed events ending w) [
          | none ↦ none
          | some r ↦ some (lift_served r)
        ]
      ]
    ]
