-- ===== src/PanelApi/Client/Amounts.antt =====
-- What `PushTraffic` sends for each user (panelapi/client.go).
use mini_sb_xboard_agent.Base.{
  ℕ, ◌+◌, ◌≤◌, ◌≡◌, refl, ap, ◌∙◌, Bool, true, Option, none, some, [], ◌∷◌, arith, ◌==◌,
  if◌then◌else◌, Bool-cases, inl, inr,
}
use mini_sb_xboard_agent.Base.Int.{
  ℤ, pos, negsuc, pos_part, ◌≤ℤ◌, add64, max_int64, IsInt64, int_eq, int_beq_iff,
}
use mini_sb_xboard_agent.Base.Text.{
  Text, text_eq, text_beq_iff, atoi, itoa, atoi-itoa, itoa_injective,
}
use mini_sb_xboard_agent.Base.Map.{
  Map, IsMap, AllEntries, lookup, put, lookup-put, put-IsMap, put-AllEntries,
}
use mini_sb_xboard_agent.PanelApi.Client.{
  Amounts, Delta, Client, matches_inbound, is_numeric_user, amounts_of, add_amounts, flatten_users,
  flatten_matching, payload_of, none_if_empty, push_request,
}

-- The bytes of a user in the users of one inbound, and in the inbounds that match.
abbrev pub total_in : (Amounts → ℤ) → Text → Map Text Amounts → ℕ
total_in part v [] = 0
total_in part v ((user, d) ∷ users) =
    (if user == v then pos_part (part d) else 0) + total_in part v users

abbrev pub total : (Amounts → ℤ) → (Text → Bool) → Text → Delta → ℕ
total part matches v [] = 0
total part matches v ((tag, users) ∷ delta) =
    (if matches tag then total_in part v users else 0) + total part matches v delta

abbrev pub up : Amounts → ℤ
up d = d.0

abbrev pub down : Amounts → ℤ
down d = d.1

-- No amount is negative.
abbrev pub NonNeg : Map Text Amounts → Type 0
NonNeg = AllEntries (λ user d. (pos 0 ≤ℤ d.0) × (pos 0 ≤ℤ d.1))

abbrev pub NonNegDelta : Delta → Type 0
NonNegDelta = AllEntries (λ tag users. NonNeg users)

-- A user that counts as a number is the numeral of an int.
abbrev pub IsCanonical : Text → Type 0
IsCanonical user = (id : ℤ) × IsInt64 id × (user ≡ itoa id)

abbrev pub CanonicalUsers : Map Text Amounts → Type 0
CanonicalUsers = AllEntries (λ user d. is_numeric_user user ≡ true → IsCanonical user)

abbrev pub CanonicalDelta : Delta → Type 0
CanonicalDelta = AllEntries (λ tag users. CanonicalUsers users)

add_exact :
    (a : ℕ) (n : ℤ)
    → pos 0 ≤ℤ n
    → a + pos_part n ≤ max_int64
    → add64 (pos a) n ≡ pos (a + pos_part n)
unfolding add64
add_exact a (pos n) h fits = ground arith
add_exact a (negsuc n) h fits = absurd (omega (arith, h))

module _ (v : Text) (numeric : is_numeric_user v ≡ true) where
  added : Map Text Amounts → Text → Amounts → Amounts
  added flat user d = (add64 (amounts_of user flat).0 d.0, add64 (amounts_of user flat).1 d.1)

  lookup-add_amounts :
      (flat : Map Text Amounts) (user : Text) (d : Amounts)
      → amounts_of v (add_amounts flat user d)
        ≡ (if user == v then added flat v d else amounts_of v flat)
  unfolding add_amounts added
  lookup-add_amounts flat user d = elim (Bool-cases (user == v)) [
    | inl same ↦ ground (arith, text_beq_iff user v, lookup-put v user (added flat user d) flat)
    | inr other ↦ ground (arith, text_beq_iff user v, lookup-put v user (added flat user d) flat)
  ]

  add_amounts_lem :
      (flat : Map Text Amounts) (user : Text) (d : Amounts) (a b : ℕ)
      → amounts_of v flat ≡ (pos a, pos b)
      → pos 0 ≤ℤ d.0
      → pos 0 ≤ℤ d.1
      → a + (if user == v then pos_part d.0 else 0) ≤ max_int64
      → b + (if user == v then pos_part d.1 else 0) ≤ max_int64
      → amounts_of v (add_amounts flat user d) ≡ (
        pos (a + (if user == v then pos_part d.0 else 0)),
        pos (b + (if user == v then pos_part d.1 else 0)),
      )
  unfolding added
  add_amounts_lem flat user d a b e hu hd fu fd = elim (Bool-cases (user == v)) [
    | inl same ↦
        rw (lookup-add_amounts flat user d, same, e)
          (ground (arith, add_exact a d.0, add_exact b d.1))
    | inr other ↦ rw (lookup-add_amounts flat user d, other) (ground (arith, e))
  ]

  flatten_users_lem :
      (flat users : Map Text Amounts) (a b : ℕ)
      → NonNeg users
      → amounts_of v flat ≡ (pos a, pos b)
      → a + total_in up v users ≤ max_int64
      → b + total_in down v users ≤ max_int64
      → amounts_of v (flatten_users flat users)
        ≡ (pos (a + total_in up v users), pos (b + total_in down v users))
  unfolding flatten_users
  flatten_users_lem flat [] a b h e fu fd = rw e (ground arith)
  flatten_users_lem flat ((user, d) ∷ users) a b h e fu fd =
      let x : ℕ = if user == v then pos_part d.0 else 0 in
      let y : ℕ = if user == v then pos_part d.1 else 0 in
      flatten_users_lem (add_amounts flat user d) users (a + x) (b + y) h.1
        (add_amounts_lem flat user d a b e h.0.0 h.0.1 (omega arith) (omega arith)) (omega arith)
        (omega arith)
      ∙ ground arith

  flatten_matching_lem :
      (matches : Text → Bool) (flat : Map Text Amounts) (delta : Delta) (a b : ℕ)
      → NonNegDelta delta
      → amounts_of v flat ≡ (pos a, pos b)
      → a + total up matches v delta ≤ max_int64
      → b + total down matches v delta ≤ max_int64
      → amounts_of v (flatten_matching matches flat delta)
        ≡ (pos (a + total up matches v delta), pos (b + total down matches v delta))
  unfolding flatten_matching
  flatten_matching_lem matches flat [] a b h e fu fd = rw e (ground arith)
  flatten_matching_lem matches flat ((tag, users) ∷ delta) a b h e fu fd =
      elim (Bool-cases (matches tag)) [
        | inl here ↦
            let gu = simp here at fu in
            let gd = simp here at fd in
            rw here (
              flatten_matching_lem matches (flatten_users flat users) delta
                (a + total_in up v users) (b + total_in down v users) h.1
                (flatten_users_lem flat users a b h.0 e (omega (arith, gu)) (omega (arith, gd)))
                (omega (arith, gu)) (omega (arith, gd))
              ∙ ground arith)
        | inr other ↦ rw other (
            flatten_matching_lem matches flat delta a b h.1 e (omega (arith, simp other at fu))
              (omega (arith, simp other at fd))
            ∙ ground arith)
      ]

-- The keys of what was flattened.
CanonicalKeys : Map Text Amounts → Type 0
CanonicalKeys flat = IsMap flat × AllEntries (λ user d. IsCanonical user) flat

add_amounts-CanonicalKeys :
    (flat : Map Text Amounts) (user : Text) (d : Amounts)
    → (is_numeric_user user ≡ true → IsCanonical user)
    → CanonicalKeys flat
    → CanonicalKeys (add_amounts flat user d)
unfolding add_amounts CanonicalKeys
add_amounts-CanonicalKeys flat user d c h = elim (Bool-cases (is_numeric_user user)) [
  | inl numeric ↦
      rw numeric (
        put-IsMap user _ flat h.0,
        put-AllEntries (λ k x. IsCanonical k) user _ flat (c numeric) h.1,
      )
  | inr other ↦ rw other h
]

flatten_users-CanonicalKeys :
    (flat users : Map Text Amounts)
    → CanonicalUsers users
    → CanonicalKeys flat
    → CanonicalKeys (flatten_users flat users)
unfolding flatten_users
flatten_users-CanonicalKeys flat [] c h = h
flatten_users-CanonicalKeys flat ((user, d) ∷ users) c h =
    flatten_users-CanonicalKeys (add_amounts flat user d) users c.1
      (add_amounts-CanonicalKeys flat user d c.0 h)

flatten_matching-CanonicalKeys :
    (matches : Text → Bool) (flat : Map Text Amounts) (delta : Delta)
    → CanonicalDelta delta
    → CanonicalKeys flat
    → CanonicalKeys (flatten_matching matches flat delta)
unfolding flatten_matching
flatten_matching-CanonicalKeys matches flat [] c h = h
flatten_matching-CanonicalKeys matches flat ((tag, users) ∷ delta) c h =
    elim (Bool-cases (matches tag)) [
      | inl here ↦ rw here (
          flatten_matching-CanonicalKeys matches (flatten_users flat users) delta c.1
            (flatten_users-CanonicalKeys flat users c.0 h))
      | inr other ↦ rw other (flatten_matching-CanonicalKeys matches flat delta c.1 h)
    ]

one_numeral :
    (id j : ℤ) (out : Map ℤ Amounts) (user : Text) (d : Amounts) (flat : Map Text Amounts)
    → IsInt64 j
    → IsInt64 id
    → user ≡ itoa j
    → lookup user flat ≡ none
    → Path
        (Option Amounts)
        (elim (lookup (itoa id) flat) [ none ↦ lookup id (put j d out) | some x ↦ some x ])
        (elim (lookup (itoa id) ((user, d) ∷ flat)) [ none ↦ lookup id out | some x ↦ some x ])
unfolding lookup
one_numeral id j out user d flat range h named missing = elim (Bool-cases (user == itoa id)) [
  | inl same ↦ ground (
    arith,
    text_beq_iff user (itoa id),
    lookup-put id j d out,
    int_beq_iff j id,
    itoa_injective j id range h,
  )
  | inr other ↦ ground (arith, text_beq_iff user (itoa id), lookup-put id j d out, int_beq_iff j id)
]

-- Under canonical keys the payload has the amounts of each numeral under its number.
lookup-payload_of :
    (id : ℤ) (out : Map ℤ Amounts) (flat : Map Text Amounts)
    → IsInt64 id
    → IsMap flat
    → AllEntries (λ user d. IsCanonical user) flat
    → lookup id (payload_of out flat)
      ≡ (elim (lookup (itoa id) flat) [ none ↦ lookup id out | some d ↦ some d ])
unfolding payload_of lookup
lookup-payload_of id out [] h u c = refl
lookup-payload_of id out ((user, d) ∷ flat) h u c =
    let (j, range, named) = c.0 in
    let rest = lookup-payload_of id (put j d out) flat h u.1 c.1 in
    rw (payload_of, ap atoi named ∙ atoi-itoa j range)
      (rest ∙ one_numeral id j out user d flat range h named u.0)

-- The amounts of a number in what is sent; none if nothing is sent.
abbrev pub amounts_at : ℤ → Option (Map ℤ Amounts) → Amounts
amounts_at id none = (pos 0, pos 0)
amounts_at id (some p) = elim (lookup id p) [ none ↦ (pos 0, pos 0) | some d ↦ d ]

at_none_if_empty :
    (id : ℤ) (p : Map ℤ Amounts)
    → amounts_at id (none_if_empty p) ≡ (elim (lookup id p) [ none ↦ (pos 0, pos 0) | some d ↦ d ])
unfolding lookup
at_none_if_empty id [] = refl
at_none_if_empty id (x ∷ p) = refl

same_default :
    (o : Option Amounts)
    → Path Amounts
        (elim (elim o as (λ x. Option Amounts) [ none ↦ none | some d ↦ some d ]) [
          | none ↦ (pos 0, pos 0)
          | some d ↦ d
        ])
        (elim o [ none ↦ (pos 0, pos 0) | some d ↦ d ])
same_default none = refl
same_default (some d) = refl

-- If the amounts are not negative, numeric users are the numerals of ints and the sums fit an int64:
-- what `PushTraffic` sends for a number is the sum of the amounts that the inbounds which match the
-- type of the node have for its numeral; nothing is sent for other inbounds and other users.
pub push_request_sums :
    (c : Client) (delta : Delta) (id : ℤ)
    → IsInt64 id
    → is_numeric_user (itoa id) ≡ true
    → NonNegDelta delta
    → CanonicalDelta delta
    → total up (matches_inbound c.node_type) (itoa id) delta ≤ max_int64
    → total down (matches_inbound c.node_type) (itoa id) delta ≤ max_int64
    → amounts_at id (push_request c delta) ≡ (
      pos (total up (matches_inbound c.node_type) (itoa id) delta),
      pos (total down (matches_inbound c.node_type) (itoa id) delta),
    )
unfolding push_request CanonicalKeys lookup
push_request_sums c delta id range numeric h k fu fd =
    let m = matches_inbound c.node_type in
    let flat = flatten_matching m [] delta in
    let keys = flatten_matching-CanonicalKeys m [] delta k (tt, tt) in
    let sums =
      flatten_matching_lem (itoa id) numeric m [] delta 0 0 h refl (omega arith) (omega arith) in
    at_none_if_empty id (payload_of [] flat)
    ∙ ap (λ (o : Option Amounts). elim o [ none ↦ (pos 0, pos 0) | some d ↦ d ])
        (lookup-payload_of id [] flat range keys.0 keys.1)
    ∙ same_default (lookup (itoa id) flat)
    ∙ sums
    ∙ ground arith
