-- ===== src/Uplink.antt =====
-- The traffic on its way from the agent to the panel: what `PushTraffic` (panelapi/client.go) sends,
-- through the JSON between them, into the counters behind `handlePush` (tiny-xboard/api.go,
-- tiny-xboard/store.go).
mod Tests
use mini_sb_xboard_agent.Base.{
  ℕ, ◌+◌, ◌≤◌, ◌≡◌, refl, sym, ap, ◌∙◌, true, false, Option, none, some, [], ◌∷◌, arith, ok, ◌==◌,
  Bool-cases, Option-cases, inl, inr,
}
use mini_sb_xboard_agent.Base.Int.{ℤ, pos, pos_part, IsInt64, int_eq, max_int64}
use mini_sb_xboard_agent.Base.Text.{
  Text, text_eq, text_beq, text_beq_iff, lit, atoi, is_digit, itoa, atoi-itoa,
}
use mini_sb_xboard_agent.Base.Map.{Map, IsMap, lookup, contains}
use mini_sb_xboard_agent.PanelApi.Client.{
  Amounts, Delta, Client, matches_inbound, is_numeric_user, push_request,
}
use mini_sb_xboard_agent.PanelApi.Client.Amounts.{
  up, down, total, NonNegDelta, CanonicalDelta, amounts_at, push_request_sums,
}
use mini_sb_xboard_agent.TinyXboard.Schema.{NodeEntry, User, Traffic}
use mini_sb_xboard_agent.TinyXboard.Store.State.{Store, Env, World}
use mini_sb_xboard_agent.TinyXboard.Store.LoadUsers.{refresh_users}
use mini_sb_xboard_agent.TinyXboard.Store.Users.{counters_of}
use mini_sb_xboard_agent.TinyXboard.Auth.{authenticate}
use mini_sb_xboard_agent.TinyXboard.Api.Handlers.{
  RawMessage, Request, Response, fields, push_fields, push_body, push_pairs, handle_push,
}
use mini_sb_xboard_agent.TinyXboard.Api.Compact.{
  pair_at, pair_adds, NumeralKeys, same_amounts, push_pairs_lem,
}

-- What the JSON encoder of the agent and the decoder of the panel make together of a payload: an
-- object with the numerals of its numbers as names, each once, and the two amounts of each under it.
pub record IsEncoded (p : Map ℤ Amounts) (m : Map Text RawMessage) : Type 0 where
  pub one_each : IsMap m
  pub numerals : NumeralKeys m
  pub pairs : (id : ℤ) → IsInt64 id → pair_at (itoa id) m ≡ lookup id p

-- A numeral is no other word.
no_word :
    (word : Text) (m : Map Text RawMessage)
    → atoi word ≡ none
    → NumeralKeys m
    → lookup word m ≡ none
unfolding lookup
no_word word [] n keys = refl
no_word word ((key, v) ∷ m) n keys =
    let (j, range, named) = keys.0 in
    ground (arith, text_beq_iff key word, ap atoi named, atoi-itoa j range, no_word word m n keys.1)

module _ (c : Client) (delta : Delta) (p : Map ℤ Amounts) (m : Map Text RawMessage) (id : ℤ)
    (sent : push_request c delta ≡ some p) (encoded : IsEncoded p m) (range : IsInt64 id)
    (numeric : is_numeric_user (itoa id) ≡ true) (positive : NonNegDelta delta)
    (canonical : CanonicalDelta delta) where
  abbrev bytes_up : ℕ
  bytes_up = total up (matches_inbound c.node_type) (itoa id) delta

  abbrev bytes_down : ℕ
  bytes_down = total down (matches_inbound c.node_type) (itoa id) delta

  abbrev or_nothing : Option Amounts → Amounts
  or_nothing o = elim o [ none ↦ (pos 0, pos 0) | some d ↦ d ]

  -- A known user gets the sums.
  known_pair :
      (users : Map ℤ User) (o : Option Amounts)
      → contains id users ≡ true
      → or_nothing o ≡ (pos bytes_up, pos bytes_down)
      → (pair_adds (λ d. d.0) users id o ≡ bytes_up)
        × (pair_adds (λ d. d.1) users id o ≡ bytes_down)
  known_pair users none known e = (ap (λ d. pos_part d.0) e, ap (λ d. pos_part d.1) e)
  known_pair users (some d) known e =
      let up_is : d.0 ≡ pos bytes_up = ap (λ d. d.0) e in
      let down_is : d.1 ≡ pos bytes_down = ap (λ d. d.1) e in
      (rw (up_is, down_is, known) (ground arith), rw (up_is, down_is, known) (ground arith))

  module _ (env : Env) (r : Request) (w : World) (entry : NodeEntry) (a b : ℕ)
      (post : r.method ≡ lit "POST") (allowed : authenticate w.store r.credentials ≡ ok entry)
      (free : r.slot_free ≡ true) (carries : r.body ≡ fields m)
      (known : contains id (refresh_users env w).0.store.users ≡ true)
      (before : counters_of id (refresh_users env w).0.store.traffic
        ≡ record { upload = pos a; download = pos b })
      (fits_up : a + bytes_up ≤ max_int64) (fits_down : b + bytes_down ≤ max_int64) where
    no_list : lookup (lit "traffic") m ≡ none
    unfolding atoi is_digit
    no_list = no_word (lit "traffic") m refl encoded.numerals

    handled : (handle_push env r w).0.store ≡ (push_pairs 0 m (refresh_users env w).0.store).0
    unfolding handle_push push_body push_fields text_beq
    handled = rw (handle_push, post, allowed, free, carries, push_body, push_fields, no_list) refl

    -- For a payload that `PushTraffic` makes of a delta without negative amounts, whose numeric users
    -- are the numerals of ints, and that the JSON between the programs keeps: a request that
    -- `handlePush` lets through adds to the two counters of each user that the panel knows exactly the
    -- bytes that the inbounds of the node's type have for the user's numeral, up and down, as long as
    -- the sums fit an int64.
    pub push_reaches :
        counters_of id (handle_push env r w).0.store.traffic
        ≡ record { upload = pos (a + bytes_up); download = pos (b + bytes_down) }
    push_reaches =
        let users = (refresh_users env w).0.store.users in
        let sums =
          push_request_sums c delta id range numeric positive canonical (omega arith)
            (omega arith) in
        let there = ap or_nothing (encoded.pairs id range) ∙ ap (amounts_at id) (sym sent) ∙ sums in
        let (adds_up, adds_down) = known_pair users (pair_at (itoa id) m) known there in
        ap (λ s. counters_of id s.traffic) handled
        ∙ (push_pairs_lem users 0 m (refresh_users env w).0.store id a b range encoded.one_each
            encoded.numerals refl before (rw adds_up fits_up) (rw adds_down fits_down)).0
        ∙ same_amounts (ap (λ n. a + n) adds_up) (ap (λ n. b + n) adds_down)
