-- ===== src/TinyXboard/Main/Laws.antt =====
-- What is on disk when the program ends (tiny-xboard/main.go).
use mathlib.Core.Path.{subst}
use mini_sb_xboard_agent.Base.{
  ◌≡◌, refl, sym, ap, ◌∙◌, Bool, true, false, Option, none, some, List, [], ◌∷◌, All, arith, Result,
  ok, err, Bool-cases, Result-cases, inl, inr,
}
use mini_sb_xboard_agent.Base.Int.{ℤ, int_eq}
use mini_sb_xboard_agent.Base.Text.{text_eq}
use mini_sb_xboard_agent.Base.Map.{Map}
use mini_sb_xboard_agent.TinyXboard.Schema.{Traffic, TrafficFile}
use mini_sb_xboard_agent.TinyXboard.Persist.{
  Bytes, Files, Faults, no_faults, Codec, holds, atomic_write_with_backup,
}
use mini_sb_xboard_agent.TinyXboard.Persist.Write.{write_in_place}
use mini_sb_xboard_agent.TinyXboard.Store.Durable.{flush_outcome}
use mini_sb_xboard_agent.TinyXboard.Store.State.{Env, World}
use mini_sb_xboard_agent.TinyXboard.Store.Save.{
  save_traffic, flush_traffic_if_dirty, traffic_document, lift_write,
}
use mini_sb_xboard_agent.TinyXboard.Api.Handlers.{handle_user, handle_push}
use mini_sb_xboard_agent.TinyXboard.Main.{
  Event, user_asked, push_asked, config_asked, flush_began, flush_copied, flush_written, Flusher,
  idle, claimed, copied, Running, claim, write_copy, handle, play, Ending, Stop, cancelled,
  serve_returned, serve, shut_down, flush_last,
}
use mini_sb_xboard_agent.TinyXboard.Main.Quiet.{
  Quiet, handle_push-Quiet, handle_user-Quiet, handle_config-same,
}

-- Clean counters stand in their file.
abbrev pub Synced : Codec TrafficFile → World → Type 0
Synced codec w =
    w.store.dirty ≡ false
    → (now : ℤ) × (w.disk.traffic.main
        ≡ holds (codec.encode (traffic_document now w.store.traffic)))

-- The same while the flusher is at work: what it has copied are the counters, unless they are dirty.
abbrev SyncedWith : Codec TrafficFile → Running → Type 0
SyncedWith codec (w, idle) = Synced codec w
SyncedWith codec (w, claimed) = Unit
SyncedWith codec (w, copied traffic) = w.store.dirty ≡ false → traffic ≡ w.store.traffic

-- Every flush encodes in the same way.
abbrev pub UsesCodec : Codec TrafficFile → Event → Type 0
UsesCodec codec (flush_written env) = env.codecs.traffic ≡ codec
UsesCodec codec _ = Unit

saved_main :
    (f : Faults) (b : Bytes) (fs : Files)
    → lift_write (atomic_write_with_backup f b fs).1 ≡ ok tt
    → (atomic_write_with_backup f b fs).0.main ≡ holds b
unfolding atomic_write_with_backup
saved_main f b fs h = ground arith

saved_traffic :
    (env : Env) (w : World)
    → (save_traffic env w).1 ≡ ok tt
    → (save_traffic env w).0.disk.traffic.main
      ≡ holds (env.codecs.traffic.encode (traffic_document env.unix_time w.store.traffic))
unfolding save_traffic
saved_traffic env w h = saved_main env.faults _ w.disk.traffic h

module _ (codec : Codec TrafficFile) where
  Quiet-Synced : (w w' : World) → Quiet w w' → Synced codec w → Synced codec w'
  Quiet-Synced w w' quiet synced clean =
      let (was, counters, file) = quiet clean in
      let (now, there) = synced was in
      (
        now,
        ap (λ d. d.main) file
            ∙ there
            ∙ ap (λ m. holds (codec.encode (traffic_document now m))) (sym counters),
      )

  flush_clean : (env : Env) (w : World) → w.store.dirty ≡ false → flush_traffic_if_dirty env w ≡ w
  unfolding flush_traffic_if_dirty
  flush_clean env w clean = ground arith

  -- A flush that reports success has written the counters.
  flush-Synced :
      (env : Env) (w : World)
      → env.codecs.traffic ≡ codec
      → Synced codec w
      → Synced codec (flush_traffic_if_dirty env w)
  flush-Synced env w c synced = elim (Bool-cases w.store.dirty) [
    | inr clean ↦ subst (Synced codec) (sym (flush_clean env w clean)) synced
    | inl dirty ↦
        let saved = save_traffic env (record w { store = record w.store { dirty = false } }) in
        let (done, failed, files) = flush_outcome env w dirty in
        elim (Result-cases saved.1) [
          | inl (e, bad) ↦ λ clean. absurd (ground (arith, failed e bad))
          | inr (_, good) ↦ λ clean. (
            env.unix_time,
            ap (λ d. d.traffic.main) files
                ∙ saved_traffic env _ good
                ∙ ap
                    (λ (x : Codec TrafficFile).
                      holds (x.encode (traffic_document env.unix_time w.store.traffic)))
                    c
                ∙ ap (λ s. holds (codec.encode (traffic_document env.unix_time s.traffic)))
                    (sym (done good)),
          )
        ]
  ]

  Quiet-SyncedWith :
      (f : Flusher) (w w' : World) → Quiet w w' → SyncedWith codec (w, f) → SyncedWith codec (w', f)
  Quiet-SyncedWith idle w w' quiet synced = Quiet-Synced w w' quiet synced
  Quiet-SyncedWith claimed w w' quiet synced = tt
  Quiet-SyncedWith (copied traffic) w w' quiet synced =
      λ clean. let (was, counters, _) = quiet clean in synced was ∙ sym counters

  claim-SyncedWith : (w : World) → Synced codec w → SyncedWith codec (claim w)
  claim-SyncedWith w synced = elim (Bool-cases w.store.dirty) [
    | inl dirty ↦
        let taken : claim w ≡ (record w { store = record w.store { dirty = false } }, claimed) =
          ground (arith, dirty) in
        subst (SyncedWith codec) (sym taken) tt
    | inr clean ↦
        let left : claim w ≡ (w, idle) = ground (arith, clean) in
        subst (SyncedWith codec) (sym left) synced
  ]

  write_copy-Synced :
      (env : Env) (traffic : Map ℤ Traffic) (w : World)
      → env.codecs.traffic ≡ codec
      → (w.store.dirty ≡ false → traffic ≡ w.store.traffic)
      → Synced codec (write_copy env traffic w)
  unfolding write_copy
  write_copy-Synced env traffic w c same =
      let bytes = env.codecs.traffic.encode (traffic_document env.unix_time traffic) in
      let written = atomic_write_with_backup env.faults bytes w.disk.traffic in
      elim (Result-cases written.1) [
        | inl (e, bad) ↦
            let whole : write_copy env traffic w ≡ record w {
              store = record w.store { dirty = true };
              disk = record w.disk { traffic = written.0 };
            } =
              rw (write_copy, bad) refl in
            subst (Synced codec) (sym whole) (λ clean. absurd (ground (arith, clean)))
        | inr (_, good) ↦
            let whole : write_copy env traffic w
                ≡ record w { disk = record w.disk { traffic = written.0 } } =
              rw (write_copy, good) refl in
            subst (Synced codec) (sym whole) (λ clean. (
              env.unix_time,
              saved_main env.faults bytes w.disk.traffic (ap lift_write good)
                  ∙ ap
                      (λ (x : Codec TrafficFile).
                        holds (x.encode (traffic_document env.unix_time traffic)))
                      c
                  ∙ ap (λ m. holds (codec.encode (traffic_document env.unix_time m))) (same clean),
            ))
      ]

  handle-SyncedWith :
      (e : Event) (w : Running)
      → UsesCodec codec e
      → SyncedWith codec w
      → SyncedWith codec (handle e w)
  unfolding handle
  handle-SyncedWith (user_asked env r) (w, f) c =
      Quiet-SyncedWith f w (handle_user env r w).0 (handle_user-Quiet env r w)
  handle-SyncedWith (push_asked env r) (w, f) c =
      Quiet-SyncedWith f w (handle_push env r w).0 (handle_push-Quiet env r w)
  handle-SyncedWith (config_asked r) (w, f) c =
      subst (λ x. SyncedWith codec (x, f)) (sym (handle_config-same r w))
  handle-SyncedWith flush_began (w, idle) c = claim-SyncedWith w
  handle-SyncedWith flush_began (w, claimed) c = λ s. s
  handle-SyncedWith flush_began (w, copied t) c = λ s. s
  handle-SyncedWith flush_copied (w, idle) c = λ s. s
  handle-SyncedWith flush_copied (w, claimed) c = λ s clean. refl
  handle-SyncedWith flush_copied (w, copied t) c = λ s. s
  handle-SyncedWith (flush_written env) (w, idle) c = λ s. s
  handle-SyncedWith (flush_written env) (w, claimed) c = λ s. s
  handle-SyncedWith (flush_written env) (w, copied t) c = write_copy-Synced env t w c

  play-SyncedWith :
      (es : List Event) (w : Running)
      → All (UsesCodec codec) es
      → SyncedWith codec w
      → SyncedWith codec (play es w)
  unfolding play
  play-SyncedWith [] w c synced = synced
  play-SyncedWith (e ∷ es) w c synced =
      play-SyncedWith es (handle e w) c.1 (handle-SyncedWith e w c.0 synced)

  at_rest : (w : Running) → w.1 ≡ idle → SyncedWith codec w → Synced codec w.0
  at_rest (w, f) e synced = subst (λ x. SyncedWith codec (w, x)) e synced

  flush_cleans :
      (env : Env) (w : World)
      → env.faults ≡ no_faults
      → (flush_traffic_if_dirty env w).store.dirty ≡ false
  unfolding save_traffic
  flush_cleans env w f = elim (Bool-cases w.store.dirty) [
    | inr clean ↦ ap (λ x. x.store.dirty) (flush_clean env w clean) ∙ clean
    | inl dirty ↦
        let (written, _) =
          write_in_place env.faults
            (env.codecs.traffic.encode (traffic_document env.unix_time w.store.traffic))
            w.disk.traffic f in
        ap (λ s. s.dirty) ((flush_outcome env w dirty).0 (ap lift_write written))
  ]

module _ {E : Type 0} (is_closed : E → Bool) (events : List Event) (ending : Ending E)
    (w w' : World) where
  abbrev pub drained : Running
  drained = play ending.in_flight (play events (w, idle))

  flush_last_ok :
      (r : Result E (Unit {0}))
      → flush_last is_closed ending.last r drained.0 ≡ (w', ok tt)
      → w' ≡ flush_traffic_if_dirty ending.last drained.0
  unfolding flush_last
  flush_last_ok (ok _) h = sym (ap (λ p. p.0) h)
  flush_last_ok (err e) h = elim (Bool-cases (is_closed e)) [
    | inl closed ↦ ground (arith, closed)
    | inr other ↦
        let failed : flush_last is_closed ending.last (err e) drained.0 ≡ (drained.0, err e) =
          rw (flush_last, other) refl in
        absurd (ground (arith, ap (λ p. p.1) (sym failed ∙ h)))
  ]

  shut_down_ok :
      (received : Option (Result E (Unit {0})))
      → shut_down is_closed ending received (play events (w, idle)) ≡ some (w', ok tt)
      → w' ≡ flush_traffic_if_dirty ending.last drained.0
  unfolding shut_down
  shut_down_ok none h = elim (Result-cases ending.shutdown) [
    | inl (e, failed) ↦ absurd (ground (arith, failed))
    | inr (_, done) ↦ absurd (ground (arith, done))
  ]
  shut_down_ok (some r) h = elim (Result-cases ending.shutdown) [
    | inl (e, failed) ↦ absurd (ground (arith, failed))
    | inr (_, done) ↦ flush_last_ok r (ground (arith, done))
  ]

  serve_ok :
      (stop : Stop E)
      → ending.stop ≡ stop
      → serve is_closed events ending w ≡ some (w', ok tt)
      → w' ≡ flush_traffic_if_dirty ending.last drained.0
  unfolding serve
  serve_ok cancelled e h = shut_down_ok (some ending.serve_after) (ground (arith, e))
  serve_ok (serve_returned (ok _)) e h = shut_down_ok none (ground (arith, e))
  serve_ok (serve_returned (err x)) e h = elim (Bool-cases (is_closed x)) [
    | inl closed ↦ shut_down_ok none (ground (arith, e, closed))
    | inr other ↦ absurd (ground (arith, e, other))
  ]

  -- If `serve` returns without an error while the flusher is at rest, after any requests and flushes,
  -- those between whose parts requests came and those that finish while it drains included: if clean
  -- counters stood in traffic.json at the start, all flushes encode in the same way and the last one
  -- meets no fault, then nothing is left to save, and traffic.json holds the document of exactly the
  -- counters that the program ends with.
  pub serve_persists :
      (codec : Codec TrafficFile)
      → serve is_closed events ending w ≡ some (w', ok tt)
      → All (UsesCodec codec) events
      → All (UsesCodec codec) ending.in_flight
      → ending.last.faults ≡ no_faults
      → ending.last.codecs.traffic ≡ codec
      → Synced codec w
      → drained.1 ≡ idle
      → (w'.store.dirty ≡ false)
        × (now : ℤ) × (w'.disk.traffic.main
            ≡ holds (codec.encode (traffic_document now w'.store.traffic)))
  serve_persists codec h ce ci f c synced rest =
      let e = serve_ok ending.stop refl h in
      let before = at_rest codec drained rest (
        play-SyncedWith codec ending.in_flight (play events (w, idle)) ci
          (play-SyncedWith codec events (w, idle) ce synced)) in
      let clean = ap (λ x. x.store.dirty) e ∙ flush_cleans codec ending.last drained.0 f in
      let (now, there) =
        subst (Synced codec) (sym e) (flush-Synced codec ending.last drained.0 c before) clean in
      (clean, now, there)
