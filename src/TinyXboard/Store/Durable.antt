-- ===== src/TinyXboard/Store/Durable.antt =====
-- What `flushTrafficIfDirty` saves is what the next start loads (tiny-xboard/store.go).
use mathlib.Core.Path.{subst}
use mathlib.Core.List.{append-nil, append_assoc, map-append}
use mini_sb_xboard_agent.Base.{
  ◌≡◌, refl, sym, ap, ◌∙◌, true, false, none, some, [], ◌∷◌, ◌++◌, map, arith, All, ok, err,
}
use mini_sb_xboard_agent.Base.Int.{ℤ, pos, ◌≤ℤ◌, int_eq, int_beq_iff, IsInt64}
use mini_sb_xboard_agent.Base.Text.{Text, itoa, atoi-itoa, itoa_injective, text_eq, text_beq_iff}
use mini_sb_xboard_agent.Base.Map.{Map, IsMap, AllEntries, lookup, put_new, lookup-append}
use mini_sb_xboard_agent.TinyXboard.Schema.{Traffic, TrafficFile, zero_traffic_file}
use mini_sb_xboard_agent.TinyXboard.Store.State.{Env, World, StoreError, empty_store}
use mini_sb_xboard_agent.TinyXboard.Persist.Write.{write_in_place, exists_holds}
use mini_sb_xboard_agent.TinyXboard.Persist.{no_faults, Bytes, Files, Codec, holds, exists}
use mini_sb_xboard_agent.TinyXboard.Persist.Load.{Decodes, load_main}
use mini_sb_xboard_agent.TinyXboard.Validate.{validate_traffic_file}
use mini_sb_xboard_agent.TinyXboard.Store.Save.{
  save_traffic, flush_traffic_if_dirty, traffic_entries, traffic_document,
}
use mini_sb_xboard_agent.TinyXboard.Store.LoadTraffic.{
  load_traffic, find_traffic, normalize_entry, normalize_entries, normalize_traffic_file,
}

-- A counter that a document can carry: the id is a positive int64, and neither amount is negative.
abbrev pub IsCounter : ℤ → Traffic → Type 0
IsCounter id t = (pos 1 ≤ℤ id) × IsInt64 id × (pos 0 ≤ℤ t.upload) × (pos 0 ≤ℤ t.download)

-- No key of the second map stands in the first.
abbrev AllNew : Map ℤ Traffic → Map ℤ Traffic → Type 0
AllNew out m = All (λ (x : ℤ × Traffic). lookup x.0 out ≡ none) m

-- The keys as texts.
abbrev printed : Map ℤ Traffic → Map Text Traffic
printed = map (λ e. (itoa e.0, e.1))

lookup-printed :
    (id : ℤ) (m : Map ℤ Traffic)
    → IsInt64 id
    → AllEntries IsCounter m
    → lookup (itoa id) (printed m) ≡ lookup id m
unfolding lookup
lookup-printed id [] h c = refl
lookup-printed id ((j, t) ∷ m) h c = ground (
  arith,
  lookup-printed id m h c.1,
  text_beq_iff (itoa j) (itoa id),
  int_beq_iff j id,
  itoa_injective j id c.0.1 h,
)

new_after :
    (id : ℤ) (t : Traffic) (out m : Map ℤ Traffic)
    → lookup id m ≡ none
    → AllNew out m
    → AllNew (out ++ ((id, t) ∷ [])) m
unfolding lookup
new_after id t out [] h n = tt
new_after id t out ((j, s) ∷ m) h n = (
  ground (arith, lookup-append j out ((id, t) ∷ []), int_beq_iff id j, int_beq_iff j id),
  new_after id t out m (ground arith) n.1,
)

AllEntries-append :
    (out : Map ℤ Traffic) (id : ℤ) (t : Traffic)
    → AllEntries IsCounter out
    → IsCounter id t
    → AllEntries IsCounter (out ++ ((id, t) ∷ []))
AllEntries-append [] id t h c = (c, tt)
AllEntries-append ((j, s) ∷ out) id t h c = (h.0, AllEntries-append out id t h.1 c)

-- The loop of `SaveTraffic` prints the keys, in order.
traffic_entries_lem :
    (out m : Map ℤ Traffic)
    → AllEntries IsCounter out
    → AllEntries IsCounter m
    → IsMap m
    → AllNew out m
    → traffic_entries (printed out) m ≡ printed (out ++ m)
unfolding traffic_entries
traffic_entries_lem out [] co cm u n = rw append-nil
traffic_entries_lem out ((id, t) ∷ m) co cm u n =
    let out' = out ++ ((id, t) ∷ []) in
    let fresh : lookup (itoa id) (printed out) ≡ none = lookup-printed id out cm.0.1 co ∙ n.0 in
    ap (λ o. traffic_entries o m)
      (put_new (itoa id) t (printed out) fresh ∙ sym (map-append _ out ((id, t) ∷ [])))
    ∙ traffic_entries_lem out' m (AllEntries-append out id t co cm.0) cm.1 u.1
        (new_after id t out m u.0 n.1)
    ∙ ap printed (append_assoc out ((id, t) ∷ []) m)

-- The loop of `normalizeTrafficFile` reads them back.
normalize_entries_lem :
    (out m : Map ℤ Traffic)
    → AllEntries IsCounter m
    → IsMap m
    → AllNew out m
    → normalize_entries out (printed m) ≡ out ++ m
unfolding normalize_entries normalize_entry
normalize_entries_lem out [] cm u n = sym (append-nil out)
normalize_entries_lem out ((id, t) ∷ m) cm u n =
    ap (λ o. normalize_entries o (printed m))
      (ground (arith, atoi-itoa id cm.0.1, put_new id t out n.0))
    ∙ normalize_entries_lem (out ++ ((id, t) ∷ [])) m cm.1 u.1 (new_after id t out m u.0 n.1)
    ∙ append_assoc out ((id, t) ∷ []) m

all_new : (m : Map ℤ Traffic) → AllNew [] m
unfolding lookup
all_new [] = tt
all_new (x ∷ m) = (refl, all_new m)

-- The counters that `SaveTraffic` writes are the counters that `loadTraffic` makes of the document:
-- every id and both amounts, in the same order, if there is one for each id, the ids are positive
-- int64 and no amount is negative.
pub traffic_round_trip :
    (now : ℤ) (traffic : Map ℤ Traffic)
    → IsMap traffic
    → AllEntries IsCounter traffic
    → normalize_traffic_file (traffic_document now traffic) ≡ traffic
unfolding normalize_traffic_file traffic_document
traffic_round_trip now traffic u c =
    ap (normalize_entries []) (traffic_entries_lem [] traffic tt c u (all_new traffic))
    ∙ normalize_entries_lem [] traffic c u (all_new traffic)

document_known :
    (now : ℤ) (m : Map ℤ Traffic) → validate_traffic_file (traffic_document now m) ≡ ok tt
unfolding validate_traffic_file traffic_document
document_known now m = refl

find_main :
    (codec : Codec TrafficFile) (fs : Files) (b : Bytes) (doc : TrafficFile)
    → fs.main ≡ holds b
    → Decodes codec zero_traffic_file doc b
    → validate_traffic_file doc ≡ ok tt
    → find_traffic codec fs ≡ some (doc, false)
unfolding find_traffic
find_main codec fs b doc m d v = ground (arith, load_main codec fs b m d)

load_found :
    (env : Env) (w : World) (doc : TrafficFile)
    → exists w.disk.traffic.main ≡ true
    → find_traffic env.codecs.traffic w.disk.traffic ≡ some (doc, false)
    → (load_traffic env w).store.traffic ≡ normalize_traffic_file doc
unfolding load_traffic
load_found env w doc x f = ground arith

module _ (env : Env) (w : World) (dirty : w.store.dirty ≡ true) where
  -- A flush of dirty traffic whose write succeeds clears the flag and leaves the document of the
  -- counters as traffic.json; one whose write fails leaves the flag set. The rest of the store stays.
  pub flush_outcome :
      let saved = save_traffic env (record w { store = record w.store { dirty = false } }) in
      ((saved.1 ≡ ok tt) → (flush_traffic_if_dirty env w).store ≡ record w.store { dirty = false })
      × ((e : StoreError) → saved.1 ≡ err e → (flush_traffic_if_dirty env w).store ≡ w.store)
      × ((flush_traffic_if_dirty env w).disk ≡ saved.0.disk)
  unfolding flush_traffic_if_dirty save_traffic
  flush_outcome = (λ h. ground arith, λ e h. ground arith, ground arith)

  flushed_main :
      env.faults ≡ no_faults
      → (flush_traffic_if_dirty env w).disk.traffic.main
        ≡ holds (env.codecs.traffic.encode (traffic_document env.unix_time w.store.traffic))
  unfolding flush_traffic_if_dirty save_traffic
  flushed_main f = ground (
    arith,
    write_in_place env.faults
        (env.codecs.traffic.encode (traffic_document env.unix_time w.store.traffic)) w.disk.traffic
        f,
  )

  -- Without faults, what a flush of dirty traffic wrote is what the next start loads, with the same
  -- codecs: the same counters, if there is one for each id, the ids are positive, no amount is negative,
  -- and the codec decodes what it made of the document.
  pub flush_then_load :
      (env' : Env) {doc : TrafficFile}
      → env.faults ≡ no_faults
      → env'.codecs ≡ env.codecs
      → traffic_document env.unix_time w.store.traffic ≡ doc
      → Decodes env.codecs.traffic zero_traffic_file doc (env.codecs.traffic.encode doc)
      → IsMap w.store.traffic
      → AllEntries IsCounter w.store.traffic
      → (load_traffic env'
          (record (flush_traffic_if_dirty env w) { store = empty_store })).store.traffic
        ≡ w.store.traffic
  flush_then_load env' {doc} f c d dec u k =
      let disk' = (flush_traffic_if_dirty env w).disk in
      let main : disk'.traffic.main ≡ holds (env.codecs.traffic.encode doc) =
        flushed_main f ∙ ap (λ x. holds (env.codecs.traffic.encode x)) d in
      let known : validate_traffic_file doc ≡ ok tt =
        subst (λ x. validate_traffic_file x ≡ ok tt) d
          (document_known env.unix_time w.store.traffic) in
      let found : find_traffic env'.codecs.traffic disk'.traffic ≡ some (doc, false) =
        rw c (find_main env.codecs.traffic disk'.traffic _ doc main dec known) in
      load_found env' (record { store = empty_store; disk = disk' }) doc
        (exists_holds env.faults _ disk'.traffic main) found
      ∙ ap normalize_traffic_file (sym d)
      ∙ traffic_round_trip env.unix_time w.store.traffic u k
