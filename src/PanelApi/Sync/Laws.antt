-- ===== src/PanelApi/Sync/Laws.antt =====
-- What `commitDelta` and the test for traffic make of a delta (panelapi/sync.go).
use mini_sb_xboard_agent.Base.{
  ◌≡◌, refl, ◌∙◌, true, false, Option, none, some, [], ◌∷◌, arith, ◌==◌, if◌then◌else◌, Bool-cases,
  inl, inr, Result, ok, err, Result-cases,
}
use mini_sb_xboard_agent.Base.Text.{Text, text_eq, text_beq_iff}
use mini_sb_xboard_agent.Base.Map.{Map, IsMap, lookup}
use mini_sb_xboard_agent.PanelApi.Client.{Amounts, Delta, is_numeric_user}
use mini_sb_xboard_agent.PanelApi.Sync.{
  has_traffic, any_numeric, numeric_only, keep_tag, commit_delta, Callbacks, flush,
}

-- The users of an inbound that may be left out.
abbrev pub or_empty : Option (Map Text Amounts) → Map Text Amounts
or_empty none = []
or_empty (some users) = users

pub lookup-numeric_only :
    (v : Text) (users : Map Text Amounts)
    → IsMap users
    → lookup v (numeric_only users) ≡ (if is_numeric_user v then lookup v users else none)
unfolding lookup numeric_only
lookup-numeric_only v [] u = ground arith
lookup-numeric_only v ((user, d) ∷ users) u = elim (Bool-cases (is_numeric_user user)) [
  | inl numeric ↦ ground (arith, lookup-numeric_only v users u.1, text_beq_iff user v)
  | inr other ↦ ground (arith, lookup-numeric_only v users u.1, text_beq_iff user v)
]

pub numeric_only-IsMap : (users : Map Text Amounts) → IsMap users → IsMap (numeric_only users)
unfolding numeric_only
numeric_only-IsMap [] u = tt
numeric_only-IsMap ((user, d) ∷ users) u =
    ground (arith, lookup-numeric_only user users u.1, numeric_only-IsMap users u.1)

pub lookup-keep_tag :
    (t tag : Text) (users : Map Text Amounts) (out : Delta)
    → lookup tag out ≡ none
    → or_empty (lookup t (keep_tag tag users out))
      ≡ (if tag == t then users else or_empty (lookup t out))
unfolding lookup
lookup-keep_tag t tag [] out n = ground (arith, text_beq_iff tag t)
lookup-keep_tag t tag (x ∷ users) out n = ground arith

pub lookup-keep_tag-none :
    (t tag : Text) (users : Map Text Amounts) (out : Delta)
    → lookup t out ≡ none
    → (tag == t) ≡ false
    → lookup t (keep_tag tag users out) ≡ none
unfolding lookup
lookup-keep_tag-none t tag [] out n other = n
lookup-keep_tag-none t tag (x ∷ users) out n other = ground arith

lookup-commit_delta-none :
    (t : Text) (delta : Delta) → lookup t delta ≡ none → lookup t (commit_delta delta) ≡ none
unfolding lookup commit_delta
lookup-commit_delta-none t [] n = refl
lookup-commit_delta-none t ((tag, users) ∷ delta) n =
    lookup-keep_tag-none t tag (numeric_only users) (commit_delta delta)
      (lookup-commit_delta-none t delta (ground arith)) (ground arith)

-- The numeric users of each inbound, and only those, are committed.
pub lookup-commit_delta :
    (t : Text) (delta : Delta)
    → IsMap delta
    → or_empty (lookup t (commit_delta delta)) ≡ numeric_only (or_empty (lookup t delta))
unfolding lookup commit_delta numeric_only
lookup-commit_delta t [] u = refl
lookup-commit_delta t ((tag, users) ∷ delta) u =
    lookup-keep_tag t tag (numeric_only users) (commit_delta delta)
      (lookup-commit_delta-none tag delta u.0)
    ∙ elim (Bool-cases (tag == t)) [
      | inl same ↦ rw same refl
      | inr other ↦ rw other (lookup-commit_delta t delta u.1)
    ]

pub keep_tag-IsMap :
    (tag : Text) (users : Map Text Amounts) (out : Delta)
    → lookup tag out ≡ none
    → IsMap out
    → IsMap (keep_tag tag users out)
keep_tag-IsMap tag [] out n u = u
keep_tag-IsMap tag (x ∷ users) out n u = (n, u)

pub commit_delta-IsMap : (delta : Delta) → IsMap delta → IsMap (commit_delta delta)
unfolding commit_delta
commit_delta-IsMap [] u = tt
commit_delta-IsMap ((tag, users) ∷ delta) u =
    keep_tag-IsMap tag (numeric_only users) (commit_delta delta)
      (lookup-commit_delta-none tag delta u.0) (commit_delta-IsMap delta u.1)

none_numeric :
    (v : Text) (users : Map Text Amounts)
    → any_numeric users ≡ false
    → is_numeric_user v ≡ true
    → lookup v users ≡ none
unfolding lookup
none_numeric v [] h n = refl
none_numeric v ((user, d) ∷ users) h n = ground (arith, none_numeric v users, text_beq_iff user v)

-- Without traffic, a numeric user stands in no inbound.
pub no_traffic :
    (t v : Text) (delta : Delta)
    → has_traffic delta ≡ false
    → is_numeric_user v ≡ true
    → lookup v (or_empty (lookup t delta)) ≡ none
unfolding has_traffic lookup
no_traffic t v [] h n = refl
no_traffic t v ((tag, users) ∷ delta) h n =
    ground (arith, none_numeric v users, no_traffic t v delta)

-- The three ways of a flush.
module _ {S E : Type 0} (calls : Callbacks S E) (push : Delta → Result E (Unit {0}))
    (meanwhile : S → S) (s : S) where
  pub flush_idle :
      has_traffic (calls.snapshot s) ≡ false → flush calls push meanwhile s ≡ meanwhile s
  unfolding flush
  flush_idle idle = rw (flush, idle) refl

  pub flush_failed :
      {e : E} → push (calls.snapshot s) ≡ err e → flush calls push meanwhile s ≡ meanwhile s
  unfolding flush
  flush_failed failed = elim (Bool-cases (has_traffic (calls.snapshot s))) [
    | inl busy ↦ rw (flush, busy, failed) refl
    | inr idle ↦ flush_idle idle
  ]

  pub flush_pushed :
      has_traffic (calls.snapshot s) ≡ true
      → push (calls.snapshot s) ≡ ok tt
      → flush calls push meanwhile s ≡ calls.commit (commit_delta (calls.snapshot s)) (meanwhile s)
  unfolding flush
  flush_pushed busy pushed = rw (flush, busy, pushed) refl

  -- What the traffic and a commit after it keep, a flush keeps.
  pub flush_keeps :
      (P : S → Type 0)
      → P (meanwhile s)
      → P (calls.commit (commit_delta (calls.snapshot s)) (meanwhile s))
      → P (flush calls push meanwhile s)
  flush_keeps P same done = elim (Bool-cases (has_traffic (calls.snapshot s))) [
    | inr idle ↦ rw (flush_idle idle) same
    | inl busy ↦ elim (Result-cases (push (calls.snapshot s))) [
      | inl (e, failed) ↦ rw (flush_failed failed) same
      | inr (_, pushed) ↦ rw (flush_pushed busy pushed) done
    ]
  ]
