-- ===== src/Base/Words/Laws.antt =====
-- Words that are joined and found again, and numerals that are read (Go's `strings` and `strconv`).
use Prim.Native.Nat.{ℕ, ◌+◌, ◌-◌, ◌*◌, ◌≤◌}
use mathlib.Core.Path.{◌≡◌, refl, sym, ap, ◌∙◌}
use mathlib.Core.Logic.{inl, inr}
use mathlib.Core.Bool.{true, false}
use mathlib.Core.Option.{none, some}
use mathlib.Core.List.{List, [], ◌∷◌, ◌++◌, append_assoc}
use native.Mathlib.Omega.{arith}
use mini_sb_xboard_agent.Base.Tests.{Bool-cases, nat_beq, nat_beq_iff}
use mini_sb_xboard_agent.Base.Text.{
  Text, is_empty, is_digit, is_space, digits, digits-cons, digits_value, digits_value-digits,
}
use mini_sb_xboard_agent.Base.Words.{
  split, non_empty, word_fields, join, after_last, replace_all, value, max_uint64, uint_from,
  parse_uint, Without, AllWithout, split_then,
}

-- No part is empty.
abbrev pub NonEmpty : List Text → Type 0
NonEmpty [] = Unit
NonEmpty (w ∷ ws) = (is_empty w ≡ false) × NonEmpty ws

non_empty_same : (ws : List Text) → NonEmpty ws → non_empty ws ≡ ws
unfolding non_empty
non_empty_same [] h = refl
non_empty_same (w ∷ ws) h = rw h.0 (ap (λ l. w ∷ l) (non_empty_same ws h.1))

-- Words with single blanks between them and one at the end.
pub word_fields-join :
    (c d : ℕ) (w : Text) (ws : List Text)
    → is_space c ≡ true
    → is_space d ≡ true
    → AllWithout is_space (w ∷ ws)
    → NonEmpty (w ∷ ws)
    → word_fields (join c (w ∷ ws) ++ (d ∷ [])) ≡ w ∷ ws
unfolding word_fields join split non_empty
word_fields-join c d w [] blank last h n =
    ap non_empty (split_then is_space d w [] h.0 last) ∙ rw n.0 refl
word_fields-join c d w (v ∷ ws) blank last h n =
    ap word_fields (append_assoc w (c ∷ join c (v ∷ ws)) (d ∷ []))
    ∙ ap non_empty (split_then is_space c w (join c (v ∷ ws) ++ (d ∷ [])) h.0 blank)
    ∙ rw n.0 (ap (λ l. w ∷ l) (word_fields-join c d v ws blank last h.1 n.1))

pub after_last-none : (c : ℕ) (s : Text) → Without (λ d. nat_beq d c) s → after_last c s ≡ none
unfolding after_last
after_last-none c [] h = refl
after_last-none c (d ∷ s) h = ground (arith, after_last-none c s h.1, h.0)

-- The last one counts, whatever stands before it.
pub after_last_lem :
    (c : ℕ) (before s : Text)
    → Without (λ d. nat_beq d c) s
    → after_last c (before ++ (c ∷ s)) ≡ some s
unfolding after_last
after_last_lem c [] s h = ground (arith, after_last-none c s h, nat_beq_iff c c)
after_last_lem c (d ∷ before) s h = ground (arith, after_last_lem c before s h)

pub replace_all-Without :
    (c d : ℕ) (s : Text) → nat_beq d c ≡ false → Without (λ x. nat_beq x c) (replace_all c d s)
unfolding replace_all
replace_all-Without c d [] h = tt
replace_all-Without c d (x ∷ s) h = elim (Bool-cases (nat_beq x c)) [
  | inl same ↦ rw same (h, replace_all-Without c d s h)
  | inr other ↦ rw other (other, replace_all-Without c d s h)
]

digits_value_grows : (acc m : ℕ) (s : Text) → digits_value acc s ≡ some m → acc ≤ m
unfolding digits_value
digits_value_grows acc m [] h = ground arith
digits_value_grows acc m (c ∷ s) h = elim (Bool-cases (is_digit c)) [
  | inl digit ↦ ground (arith, digit, digits_value_grows (acc * 10 + (c - 48)) m s)
  | inr other ↦ absurd (ground (arith, other))
]

uint_from_lem :
    (acc m : ℕ) (s : Text)
    → digits_value acc s ≡ some m
    → m ≤ max_uint64
    → uint_from acc s ≡ value m
unfolding digits_value uint_from
uint_from_lem acc m [] h fits = ground arith
uint_from_lem acc m (c ∷ s) h fits = elim (Bool-cases (is_digit c)) [
  | inr other ↦ absurd (ground (arith, other))
  | inl digit ↦
      let next = acc * 10 + (c - 48) in
      let rest : digits_value next s ≡ some m = ground (arith, digit) in
      let small = digits_value_grows next m s rest in
      ground (arith, digit, uint_from_lem next m s rest fits)
]

-- A numeral of 64 bits is read.
pub parse_uint-digits : (n : ℕ) → n ≤ max_uint64 → parse_uint (digits n) ≡ value n
unfolding parse_uint
parse_uint-digits n fits =
    let (c, s, e, d) = digits-cons n in
    ap parse_uint e
    ∙ uint_from_lem 0 n (c ∷ s) (ap (digits_value 0) (sym e) ∙ digits_value-digits n) fits
