-- ===== src/TinyXboard/Api/Compact.antt =====
-- What a push in the compact form does to the counters (tiny-xboard/api.go, tiny-xboard/store.go).
use mathlib.Core.Path.{subst}
use mini_sb_xboard_agent.Base.{
  ℕ, ◌+◌, ◌≤◌, ◌≡◌, refl, sym, ap, ◌∙◌, Option, none, some, [], ◌∷◌, arith, ◌==◌, Bool-cases,
  Option-cases, inl, inr, if◌then◌else◌,
}
use mini_sb_xboard_agent.Base.Int.{ℤ, pos, pos_part, max_int64, IsInt64, int_eq, int_beq_iff}
use mini_sb_xboard_agent.Base.Text.{Text, text_eq, text_beq_iff, itoa, atoi-itoa, itoa_injective}
use mini_sb_xboard_agent.Base.Map.{Map, IsMap, AllEntries, lookup}
use mini_sb_xboard_agent.TinyXboard.Schema.{User, Traffic}
use mini_sb_xboard_agent.TinyXboard.Store.State.{Store}
use mini_sb_xboard_agent.TinyXboard.Store.Users.{accumulate, counters_of}
use mini_sb_xboard_agent.TinyXboard.Api.Handlers.{
  Entry, RawMessage, count_accepted, push_pair, push_pairs,
}
use mini_sb_xboard_agent.TinyXboard.Api.Push.{counts, amount, one_counters, one_users}

-- The value of a key, if it is a pair.
abbrev pub pair_at : Text → Map Text RawMessage → Option (ℤ × ℤ)
pair_at key m = elim (lookup key m) [ none ↦ none | some v ↦ v.as_pair ]

-- What a pair adds to the counters of a user.
abbrev pub pair_adds : (ℤ × ℤ → ℤ) → Map ℤ User → ℤ → Option (ℤ × ℤ) → ℕ
pair_adds part users uid none = 0
pair_adds part users uid (some d) =
    if counts users (record { uid = uid; up = d.0; down = d.1 }) then pos_part (part d) else 0

-- All keys are numerals of ints.
abbrev pub NumeralKeys : Map Text RawMessage → Type 0
NumeralKeys = AllEntries (λ key v. (id : ℤ) × IsInt64 id × (key ≡ itoa id))

-- Every user's counters grow by the pair under the user's numeral.
abbrev pub Grown : Map ℤ User → ℤ → ℕ → ℕ → Option (ℤ × ℤ) → Store → Type 0
Grown users uid a b o s =
    (counters_of uid s.traffic ≡ record {
      upload = pos (a + pair_adds (λ d. d.0) users uid o);
      download = pos (b + pair_adds (λ d. d.1) users uid o);
    })
    × (s.users ≡ users)

pub same_amounts :
    {a a' b b' : ℕ}
    → a ≡ a'
    → b ≡ b'
    → Path Traffic
        (record { upload = pos a; download = pos b })
        (record { upload = pos a'; download = pos b' })
same_amounts ea eb = ground (arith, ea, eb)

one_pair :
    (users : Map ℤ User) (j uid : ℤ) (d : ℤ × ℤ) (part : ℤ × ℤ → ℤ)
    → amount users uid (record { uid = j; up = d.0; down = d.1 }) (part d)
      ≡ pair_adds part users uid (if j == uid then some d else none)
one_pair users j uid d part = elim (Bool-cases (j == uid)) [
  | inl same ↦ ground (arith, int_beq_iff j uid)
  | inr other ↦ ground arith
]

push_pair_lem :
    (n : ℕ) (j : ℤ) (v : RawMessage) (s : Store) (d : ℤ × ℤ)
    → IsInt64 j
    → v.as_pair ≡ some d
    → (push_pair n (itoa j) v s).0 ≡ (accumulate j d.0 d.1 s).0
unfolding push_pair count_accepted
push_pair_lem n j v s d range pair = rw (push_pair, pair, atoi-itoa j range) refl

module _ (users : Map ℤ User) (n : ℕ) (j : ℤ) (v : RawMessage) (s : Store) (uid : ℤ) (a b : ℕ)
    (range : IsInt64 j) (u : s.users ≡ users)
    (c : counters_of uid s.traffic ≡ record { upload = pos a; download = pos b }) where
  here : Option (ℤ × ℤ)
  here = if j == uid then v.as_pair else none

  push_pair-Grown :
      a + pair_adds (λ d. d.0) users uid here ≤ max_int64
      → b + pair_adds (λ d. d.1) users uid here ≤ max_int64
      → Grown users uid a b here (push_pair n (itoa j) v s).0
  unfolding here push_pair
  push_pair-Grown fa fb = elim (Option-cases v.as_pair) [
    | inl missing ↦
        let idle : here ≡ none = ground arith in rw (idle, push_pair, missing) (c ∙ ground arith, u)
    | inr (d, pair) ↦
        let e : Entry = record { uid = j; up = d.0; down = d.1 } in
        let adds_up : amount s.users uid e d.0 ≡ pair_adds (λ d. d.0) users uid here =
          ap (λ x. amount x uid e d.0) u
          ∙ one_pair users j uid d (λ d. d.0)
          ∙ ap (λ o. pair_adds (λ d. d.0) users uid (if j == uid then o else none)) (sym pair) in
        let adds_down : amount s.users uid e d.1 ≡ pair_adds (λ d. d.1) users uid here =
          ap (λ x. amount x uid e d.1) u
          ∙ one_pair users j uid d (λ d. d.1)
          ∙ ap (λ o. pair_adds (λ d. d.1) users uid (if j == uid then o else none)) (sym pair) in
        let done = push_pair_lem n j v s d range pair in
        (
          ap (λ t. counters_of uid t.traffic) done
              ∙ one_counters e s uid a b c (rw adds_up fa) (rw adds_down fb)
              ∙ same_amounts (ap (λ x. a + x) adds_up) (ap (λ x. b + x) adds_down),
          ap (λ t. t.users) done ∙ one_users e s ∙ u,
        )
  ]

-- What the first field and the fields after it add is what is under the user's numeral.
pairs_split :
    (users : Map ℤ User) (j uid : ℤ) (v : RawMessage) (m : Map Text RawMessage) (part : ℤ × ℤ → ℤ)
    → IsInt64 j
    → IsInt64 uid
    → lookup (itoa j) m ≡ none
    → pair_adds part users uid (if j == uid then v.as_pair else none)
        + pair_adds part users uid (pair_at (itoa uid) m)
      ≡ pair_adds part users uid (pair_at (itoa uid) ((itoa j, v) ∷ m))
unfolding lookup
pairs_split users j uid v m part range h missing = elim (Bool-cases (j == uid)) [
  | inl same ↦
      let e : j ≡ uid = ground (arith, int_beq_iff j uid) in
      let gone : pair_at (itoa uid) m ≡ none = ground arith in
      let found : pair_at (itoa uid) ((itoa j, v) ∷ m) ≡ v.as_pair =
        ground (arith, text_beq_iff (itoa j) (itoa uid)) in
      rw (same, gone, found) (ground arith)
  | inr other ↦
      let skipped : pair_at (itoa uid) ((itoa j, v) ∷ m) ≡ pair_at (itoa uid) m = ground (
        arith,
        text_beq_iff (itoa j) (itoa uid),
        int_beq_iff j uid,
        itoa_injective j uid range h,
      ) in
      rw (other, skipped) (ground arith)
]

-- In the compact form a push adds to the counters of a user the pair under the user's numeral, if the
-- user is known and the pair is not negative.
pub push_pairs_lem :
    (users : Map ℤ User) (n : ℕ) (m : Map Text RawMessage) (s : Store) (uid : ℤ) (a b : ℕ)
    → IsInt64 uid
    → IsMap m
    → NumeralKeys m
    → s.users ≡ users
    → counters_of uid s.traffic ≡ record { upload = pos a; download = pos b }
    → a + pair_adds (λ d. d.0) users uid (pair_at (itoa uid) m) ≤ max_int64
    → b + pair_adds (λ d. d.1) users uid (pair_at (itoa uid) m) ≤ max_int64
    → Grown users uid a b (pair_at (itoa uid) m) (push_pairs n m s).0
unfolding push_pairs lookup here
push_pairs_lem users n [] s uid a b h one_each keys u c fa fb = (c ∙ ground arith, u)
push_pairs_lem users n ((key, v) ∷ m) s uid a b h one_each keys u c fa fb =
    let (j, range, named) = keys.0 in
    let first = push_pair n (itoa j) v s in
    let split = pairs_split users j uid v m in
    let missing = subst (λ k. lookup k m ≡ none) named one_each.0 in
    let up = split (λ d. d.0) range h missing in
    let down = split (λ d. d.1) range h missing in
    let fa' =
      subst (λ k. a + pair_adds (λ d. d.0) users uid (pair_at (itoa uid) ((k, v) ∷ m)) ≤ max_int64)
        named fa in
    let fb' =
      subst (λ k. b + pair_adds (λ d. d.1) users uid (pair_at (itoa uid) ((k, v) ∷ m)) ≤ max_int64)
        named fb in
    let now : Option (ℤ × ℤ) = if j == uid then v.as_pair else none in
    let (c', u') = push_pair-Grown users n j v s uid a b range u c (omega arith) (omega arith) in
    let (c'', u'') =
      push_pairs_lem users first.1 m first.0 uid (a + pair_adds (λ d. d.0) users uid now)
        (b + pair_adds (λ d. d.1) users uid now) h one_each.1 keys.1 u' c' (omega arith)
        (omega arith) in
    let grown = c'' ∙ same_amounts (omega arith) (omega arith) in
    subst
      (λ k. Grown users uid a b (pair_at (itoa uid) ((k, v) ∷ m)) (push_pairs n ((k, v) ∷ m) s).0)
      (sym named) (grown, u'')
