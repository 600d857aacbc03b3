-- ===== src/Base/Words.antt =====
-- More of `strings` and `strconv`: Split and Fields, Join, LastIndex and ReplaceAll for one character,
-- and ParseUint.
pub mod Laws
use Prim.Native.Nat.{ℕ, ◌+◌, ◌-◌, ◌*◌, ◌≤◌, ◌^◌}
use mathlib.Core.Path.{◌≡◌, refl, sym, ap, ◌∙◌}
use mathlib.Core.Bool.{Bool, true, false, not}
use mathlib.Core.Option.{Option, none, some}
use mathlib.Core.List.{List, [], ◌∷◌, ◌++◌, map, append-nil}
use native.Mathlib.Omega.{arith}
use mini_sb_xboard_agent.Base.Tests.{Bool-cases, leb, nat_beq, if◌then◌else◌}
use mini_sb_xboard_agent.Base.Text.{Text, is_empty, is_digit, is_space, digits, digits_value}

-- A character in front of the first part.
abbrev pub onto_first : ℕ → List Text → List Text
onto_first c [] = (c ∷ []) ∷ []
onto_first c (w ∷ ws) = (c ∷ w) ∷ ws

-- The parts between the characters that p holds of: `strings.Split` for one character.
unfoldable pub split : (ℕ → Bool) → Text → List Text
split p [] = [] ∷ []
split p (c ∷ s) = let rest = split p s in if p c then [] ∷ rest else onto_first c rest

unfoldable pub non_empty : List Text → List Text
non_empty [] = []
non_empty (w ∷ ws) = let rest = non_empty ws in if is_empty w then rest else w ∷ rest

-- `strings.Fields`
unfoldable pub word_fields : Text → List Text
unfolding is_space
word_fields s = non_empty (split is_space s)

unfoldable pub join : ℕ → List Text → Text
join c [] = []
join c (w ∷ []) = w
join c (w ∷ v ∷ ws) = w ++ (c ∷ join c (v ∷ ws))

-- What follows the last c: the text after `strings.LastIndex`.
unfoldable pub after_last : ℕ → Text → Option Text
after_last c [] = none
after_last c (d ∷ s) = elim (after_last c s) [
  | some t ↦ some t
  | none ↦ if nat_beq d c then some s else none
]

-- `strings.ReplaceAll` of one character by another.
unfoldable pub replace_all : ℕ → ℕ → Text → Text
replace_all c d = map (λ x. if nat_beq x c then d else x)

-- What `strconv.ParseUint` finds in base 10, in 64 bits.
pub data Parsed : Type 0 where
  value : ℕ → Parsed
  bad_syntax out_of_range : Parsed

abbrev pub max_uint64 : ℕ
max_uint64 = 2 ^ 64 - 1

unfoldable pub uint_from : ℕ → Text → Parsed
unfolding is_digit
uint_from acc [] = value acc
uint_from acc (c ∷ s) =
    let next = acc * 10 + (c - 48) in
    let rest = uint_from next s in
    if is_digit c then (if leb next max_uint64 then rest else out_of_range) else bad_syntax

unfoldable pub parse_uint : Text → Parsed
unfolding uint_from
parse_uint [] = bad_syntax
parse_uint (c ∷ s) = uint_from 0 (c ∷ s)

-- No character of the text is a separator.
abbrev pub Without : (ℕ → Bool) → Text → Type 0
Without p [] = Unit
Without p (c ∷ s) = (p c ≡ false) × Without p s

abbrev pub AllWithout : (ℕ → Bool) → List Text → Type 0
AllWithout p [] = Unit
AllWithout p (w ∷ ws) = Without p w × AllWithout p ws

abbrev onto_all : Text → List Text → List Text
onto_all [] ws = ws
onto_all (c ∷ w) ws = onto_first c (onto_all w ws)

split_word : (p : ℕ → Bool) (w s : Text) → Without p w → split p (w ++ s) ≡ onto_all w (split p s)
unfolding split
split_word p [] s h = refl
split_word p (c ∷ w) s h = rw h.0 (ap (onto_first c) (split_word p w s h.1))

onto_all_cons : (w v : Text) (ws : List Text) → onto_all w (v ∷ ws) ≡ (w ++ v) ∷ ws
onto_all_cons [] v ws = refl
onto_all_cons (c ∷ w) v ws = ap (onto_first c) (onto_all_cons w v ws)

pub split_then :
    (p : ℕ → Bool) (c : ℕ) (w s : Text)
    → Without p w
    → p c ≡ true
    → split p (w ++ (c ∷ s)) ≡ w ∷ split p s
unfolding split
split_then p c w s h sep =
    split_word p w (c ∷ s) h
    ∙ rw sep (onto_all_cons w [] (split p s))
    ∙ ap (λ v. v ∷ split p s) (append-nil w)

-- Parts without a separator are found again.
pub split-join :
    (p : ℕ → Bool) (c : ℕ) (w : Text) (ws : List Text)
    → p c ≡ true
    → AllWithout p (w ∷ ws)
    → split p (join c (w ∷ ws)) ≡ w ∷ ws
unfolding join split
split-join p c w [] sep h =
    ap (split p) (sym (append-nil w))
    ∙ split_word p w [] h.0
    ∙ onto_all_cons w [] []
    ∙ ap (λ v. v ∷ []) (append-nil w)
split-join p c w (v ∷ ws) sep h =
    split_then p c w (join c (v ∷ ws)) h.0 sep ∙ ap (λ l. w ∷ l) (split-join p c v ws sep h.1)
