-- ===== src/Base/Text.antt =====
-- Go strings as lists of code points, and the parts of `strings` and `strconv` that the program
-- calls: ToLower, TrimSpace, Atoi, Itoa.
use Prim.Native.Nat.{ℕ, zero, suc, ◌+◌, ◌-◌, ◌*◌, ◌/◌, ◌%◌, ◌<◌}
use Prim.Native.Char.{code}
use Prim.Native.String.{String}
use mathlib.Core.Path.{◌≡◌, refl, ap}
use mathlib.Core.Logic.{◌↔◌, inl, inr}
use mathlib.Core.Bool.{Bool, true, false, ◌&&◌, ◌||◌}
use mathlib.Core.Option.{Option, none, some}
use mathlib.Core.List.{List, [], ◌∷◌, map}
use native.Mathlib.Omega.{arith}
use mini_sb_xboard_agent.Base.Tests.{Bool-cases, ltb, leb, nat_beq, if◌then◌else◌}
use mini_sb_xboard_agent.Base.Eqs.{Eq}
use mini_sb_xboard_agent.Base.Int.{ℤ, pos, negsuc, IsInt64, max_int64}

abbrev pub Text : Type 0
Text = List ℕ

-- The code points of a literal.
abbrev pub lit : String → Text
lit String.[] = []
lit (String.◌∷◌ c s) = code c ∷ lit s

unfoldable pub text_beq : Text → Text → Bool
text_beq [] [] = true
text_beq [] (d ∷ t) = false
text_beq (c ∷ s) [] = false
text_beq (c ∷ s) (d ∷ t) = nat_beq c d && text_beq s t

pub text_beq_iff : (s t : Text) → (text_beq s t ≡ true) ↔ (s ≡ t)
unfolding text_beq
text_beq_iff [] [] = (λ _. refl, λ _. refl)
text_beq_iff [] (d ∷ t) = (λ h. cc, λ h. cc)
text_beq_iff (c ∷ s) [] = (λ h. cc, λ h. cc)
text_beq_iff (c ∷ s) (d ∷ t) =
    (λ h. ground (arith, text_beq_iff s t), λ h. ground (arith, text_beq_iff s t))

instance abbrev pub text_eq : Eq Text
text_eq = record { equal = text_beq; equal_iff = text_beq_iff }

-- `s == ""`
abbrev pub is_empty : Text → Bool
is_empty [] = true
is_empty (c ∷ s) = false

-- `unicode.IsSpace`
unfoldable pub is_space : ℕ → Bool
is_space c =
    (leb 9 c && leb c 13)
    || nat_beq c 32
    || nat_beq c 0x85
    || nat_beq c 0xA0
    || nat_beq c 0x1680
    || (leb 0x2000 c && leb c 0x200A)
    || nat_beq c 0x2028
    || nat_beq c 0x2029
    || nat_beq c 0x202F
    || nat_beq c 0x205F
    || nat_beq c 0x3000

trim_left : Text → Text
trim_left [] = []
trim_left (c ∷ s) = let rest = trim_left s in if is_space c then rest else c ∷ s

cons_trimmed : ℕ → Text → Text
cons_trimmed c [] = if is_space c then [] else c ∷ []
cons_trimmed c (d ∷ s) = c ∷ d ∷ s

trim_right : Text → Text
unfolding cons_trimmed
trim_right [] = []
trim_right (c ∷ s) = cons_trimmed c (trim_right s)

-- `strings.TrimSpace`
unfoldable pub trim_space : Text → Text
unfolding trim_left trim_right is_space
trim_space s = trim_right (trim_left s)

-- `unicode.ToLower` on ASCII and on the two other letters with an ASCII lower case (İ and the
-- Kelvin sign). The lower case of any other letter is not ASCII, and such a letter is left as it
-- is: no text that the program compares by holds one.
lower_rune : ℕ → ℕ
lower_rune c =
    if leb b'A' c && leb c b'Z'
    then c + 32
    else if nat_beq c 0x130
    then b'i'
    else if nat_beq c 0x212A
    then b'k'
    else c

-- `strings.ToLower`
unfoldable pub to_lower : Text → Text
unfolding lower_rune
to_lower = map lower_rune

unfoldable pub is_digit : ℕ → Bool
is_digit c = leb b'0' c && leb c b'9'

-- The value of a run of decimal digits, after the digits that gave `acc`.
unfoldable pub digits_value : ℕ → Text → Option ℕ
unfolding is_digit
digits_value acc [] = some acc
digits_value acc (c ∷ s) =
    let rest = digits_value (acc * 10 + (c - 48)) s in if is_digit c then rest else none

-- A magnitude with its sign, if it fits an `int64`.
in_range : Bool → ℕ → Option ℤ
in_range false n = if leb n max_int64 then some (pos n) else none
in_range true zero = some (pos 0)
in_range true (suc n) = if leb n max_int64 then some (negsuc n) else none

magnitude : Bool → Text → Option ℤ
unfolding in_range digits_value
magnitude negative [] = none
magnitude negative (c ∷ s) = elim (digits_value 0 (c ∷ s)) [
  | none ↦ none
  | some n ↦ in_range negative n
]

-- `strconv.Atoi`; `none` is its error.
unfoldable pub atoi : Text → Option ℤ
unfolding magnitude
atoi [] = none
atoi (c ∷ s) =
    if nat_beq c b'-'
    then magnitude true s
    else if nat_beq c b'+'
    then magnitude false s
    else magnitude false (c ∷ s)

-- The decimal digits of n, in front of `acc`, with fuel above n.
unfoldable pub digits_onto : ℕ → ℕ → Text → Text
digits_onto zero n acc = acc
digits_onto (suc f) n acc =
    let rest = digits_onto f (n / 10) ((48 + n % 10) ∷ acc) in
    if ltb n 10 then (48 + n) ∷ acc else rest

unfoldable pub digits : ℕ → Text
unfolding digits_onto
digits n = digits_onto (suc n) n []

-- `strconv.Itoa`
unfoldable pub itoa : ℤ → Text
unfolding digits
itoa (pos n) = digits n
itoa (negsuc n) = b'-' ∷ digits (suc n)

-- The digits of n read as n, with what follows.
digits_value-digits_onto :
    (f n : ℕ) (acc : Text) → n < f → digits_value 0 (digits_onto f n acc) ≡ digits_value n acc
unfolding digits_value digits_onto
digits_value-digits_onto zero n acc h = elim h [ ]
digits_value-digits_onto (suc f) n acc h =
    ground (arith, digits_value-digits_onto f (n / 10) ((48 + n % 10) ∷ acc))

pub digits_value-digits : (n : ℕ) → digits_value 0 (digits n) ≡ some n
unfolding digits digits_value
digits_value-digits n = digits_value-digits_onto (suc n) n [] (omega arith)

-- The first character of a decimal numeral is a digit, so no sign.
digits_onto-cons :
    (f n : ℕ) (acc : Text)
    → (c : ℕ) × (s : Text) × (digits_onto (suc f) n acc ≡ c ∷ s) × (is_digit c ≡ true)
unfolding digits_onto is_digit
digits_onto-cons zero n acc = elim (Bool-cases (ltb n 10)) [
  | inl small ↦ (48 + n, acc, ground arith, ground arith)
  | inr big ↦ (48 + n % 10, acc, ground arith, ground arith)
]
digits_onto-cons (suc f) n acc = elim (Bool-cases (ltb n 10)) [
  | inl small ↦ (48 + n, acc, ground arith, ground arith)
  | inr big ↦
      let (c, s, e, d) = digits_onto-cons f (n / 10) ((48 + n % 10) ∷ acc) in
      (c, s, ground arith, d)
]

pub digits-cons : (n : ℕ) → (c : ℕ) × (s : Text) × (digits n ≡ c ∷ s) × (is_digit c ≡ true)
unfolding digits
digits-cons n = digits_onto-cons n n []

magnitude-digits : (negative : Bool) (n : ℕ) → magnitude negative (digits n) ≡ in_range negative n
unfolding magnitude
magnitude-digits negative n =
    let (c, s, e, d) = digits-cons n in ground (arith, digits_value-digits n)

-- A printed `int64` is read back.
pub atoi-itoa : (z : ℤ) → IsInt64 z → atoi (itoa z) ≡ some z
unfolding atoi itoa in_range is_digit
atoi-itoa (pos n) h = let (c, s, e, d) = digits-cons n in ground (arith, magnitude-digits false n)
atoi-itoa (negsuc n) h = ground (arith, magnitude-digits true (suc n))

pub itoa_injective : (a b : ℤ) → IsInt64 a → IsInt64 b → itoa a ≡ itoa b → a ≡ b
itoa_injective a b ha hb e = cc (ap atoi e, atoi-itoa a ha, atoi-itoa b hb)

-- `strings.HasPrefix` and `strings.Contains`.
abbrev pub has_prefix : Text → Text → Bool
has_prefix [] t = true
has_prefix (c ∷ s) [] = false
has_prefix (c ∷ s) (d ∷ t) = nat_beq c d && has_prefix s t

-- Whether s stands somewhere in the text.
abbrev pub contains_text : Text → Text → Bool
contains_text s [] = is_empty s
contains_text s (d ∷ t) = has_prefix s (d ∷ t) || contains_text s t
