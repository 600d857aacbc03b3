-- ===== src/Base/Map.antt =====
-- A Go map as an association list. The order of the entries stands for the order in which one
-- `range` over the map meets them, which Go leaves open: a statement for every list is a statement
-- for every such order.
use Prim.Native.Nat.{◌+◌, ◌≤◌}
use mathlib.Core.Path.{◌≡◌, refl, sym, subst, subst₂}
use mathlib.Core.Logic.{inl, inr}
use mathlib.Core.Bool.{Bool, true, false}
use mathlib.Core.Option.{Option, none, some}
use mathlib.Core.List.{List, [], ◌∷◌, ◌++◌}
use native.Mathlib.Omega.{arith}
use mini_sb_xboard_agent.Base.Tests.{if◌then◌else◌, Bool-cases}
use mini_sb_xboard_agent.Base.Lists.{length, All}
use mini_sb_xboard_agent.Base.Eqs.{Eq, ◌==◌, beq_refl, eq_of_beq}

abbrev pub Map {ℓ} : Type ℓ → Type ℓ → Type ℓ
Map K V = List (K × V)

module _ {ℓ} {K V : Type ℓ} ⦃e : Eq K⦄ where
  -- `v, ok := m[k]`
  unfoldable pub lookup : K → Map K V → Option V
  lookup k [] = none
  lookup k ((j, v) ∷ m) = if j == k then some v else lookup k m

  -- `_, ok := m[k]`
  unfoldable pub contains : K → Map K V → Bool
  contains k [] = false
  contains k ((j, v) ∷ m) = if j == k then true else contains k m

  -- `m[k] = v`
  unfoldable pub put : K → V → Map K V → Map K V
  put k v [] = (k, v) ∷ []
  put k v ((j, w) ∷ m) = if j == k then (j, v) ∷ m else (j, w) ∷ put k v m

  -- `for k := range m { if !keep(k) { delete(m, k) } }`
  unfoldable pub retain : (K → Bool) → Map K V → Map K V
  retain keep [] = []
  retain keep ((j, v) ∷ m) = let rest = retain keep m in if keep j then (j, v) ∷ rest else rest

  -- `delete(m, k)`
  unfoldable pub delete : K → Map K V → Map K V
  delete k [] = []
  delete k ((j, v) ∷ m) = let rest = delete k m in if j == k then rest else (j, v) ∷ rest

  -- No key stands twice, as in every Go map.
  abbrev pub IsMap : Map K V → Type ℓ
  IsMap [] = Unit
  IsMap ((k, v) ∷ m) = (lookup k m ≡ none) × IsMap m

module _ {ℓ} {K V : Type ℓ} ⦃e : Eq K⦄ where
  pub lookup-put :
      (j k : K) (v : V) (m : Map K V)
      → lookup j (put k v m) ≡ (if k == j then some v else lookup j m)
  unfolding lookup put
  lookup-put j k v [] = refl
  lookup-put j k v ((i, w) ∷ m) =
      ground (arith, e.equal_iff i k, e.equal_iff i j, e.equal_iff k j, lookup-put j k v m)

  pub lookup-put_self : (k : K) (v : V) (m : Map K V) → lookup k (put k v m) ≡ some v
  lookup-put_self k v m = rw (lookup-put k k v m, beq_refl k)

  pub lookup-retain :
      (j : K) (keep : K → Bool) (m : Map K V)
      → lookup j (retain keep m) ≡ (if keep j then lookup j m else none)
  unfolding lookup retain
  lookup-retain j keep [] = ground arith
  lookup-retain j keep ((i, w) ∷ m) = ground (arith, e.equal_iff i j, lookup-retain j keep m)

  pub lookup-delete :
      (j k : K) (m : Map K V) → lookup j (delete k m) ≡ (if k == j then none else lookup j m)
  unfolding lookup delete
  lookup-delete j k [] = ground arith
  lookup-delete j k ((i, w) ∷ m) =
      ground (arith, e.equal_iff i k, e.equal_iff i j, e.equal_iff k j, lookup-delete j k m)

  pub contains-lookup :
      (k : K) (m : Map K V) → contains k m ≡ (elim (lookup k m) [ none ↦ false | some _ ↦ true ])
  unfolding lookup contains
  contains-lookup k [] = refl
  contains-lookup k ((i, w) ∷ m) = ground (arith, contains-lookup k m)

  pub contains-put :
      (j k : K) (v : V) (m : Map K V)
      → contains j (put k v m) ≡ (if k == j then true else contains j m)
  unfolding contains put
  contains-put j k v [] = refl
  contains-put j k v ((i, w) ∷ m) =
      ground (arith, e.equal_iff i k, e.equal_iff i j, e.equal_iff k j, contains-put j k v m)

  pub put-IsMap : (k : K) (v : V) (m : Map K V) → IsMap m → IsMap (put k v m)
  unfolding lookup put
  put-IsMap k v [] h = (refl, tt)
  put-IsMap k v ((i, w) ∷ m) h =
      ground (arith, e.equal_iff k i, e.equal_iff i k, lookup-put i k v m, put-IsMap k v m h.1)

  pub retain-IsMap : (keep : K → Bool) (m : Map K V) → IsMap m → IsMap (retain keep m)
  unfolding retain
  retain-IsMap keep [] h = tt
  retain-IsMap keep ((i, w) ∷ m) h = ground (arith, lookup-retain i keep m, retain-IsMap keep m h.1)

  pub delete-IsMap : (k : K) (m : Map K V) → IsMap m → IsMap (delete k m)
  unfolding delete
  delete-IsMap k [] h = tt
  delete-IsMap k ((i, w) ∷ m) h = ground (arith, lookup-delete i k m, delete-IsMap k m h.1)

  pub length-put_new :
      (k : K) (v : V) (m : Map K V) → lookup k m ≡ none → length (put k v m) ≡ length m + 1
  unfolding lookup put
  length-put_new k v [] h = refl
  length-put_new k v ((i, w) ∷ m) h = ground (arith, length-put_new k v m)

  pub length-delete : (k : K) (m : Map K V) → length (delete k m) ≤ length m
  unfolding delete
  length-delete k [] = omega arith
  length-delete k ((i, w) ∷ m) = ground (arith, length-delete k m)

module _ {ℓ} {K V : Type ℓ} ⦃e : Eq K⦄ where
  pub length-put : (k : K) (v : V) (m : Map K V) → length (put k v m) ≤ length m + 1
  unfolding put
  length-put k v [] = omega arith
  length-put k v ((i, w) ∷ m) = ground (arith, length-put k v m)

  -- A property of the entries, given as a property of key and value.
  abbrev pub AllEntries {κ} : (K → V → Type κ) → Map K V → Type κ
  AllEntries P m = All (λ (x : K × V). P x.0 x.1) m

  pub put-AllEntries {κ} :
      (P : K → V → Type κ) (k : K) (v : V) (m : Map K V)
      → P k v
      → AllEntries P m
      → AllEntries P (put k v m)
  unfolding put
  put-AllEntries P k v [] p h = (p, tt)
  put-AllEntries P k v ((i, w) ∷ m) p h = elim (Bool-cases (i == k)) [
    | inl same ↦ rw same (subst (λ j. P j v) (sym (eq_of_beq i k same)) p, h.1)
    | inr other ↦ rw other (h.0, put-AllEntries P k v m p h.1)
  ]

  pub delete-AllEntries {κ} :
      (P : K → V → Type κ) (k : K) (m : Map K V) → AllEntries P m → AllEntries P (delete k m)
  unfolding delete
  delete-AllEntries P k [] h = tt
  delete-AllEntries P k ((i, w) ∷ m) h = elim (Bool-cases (i == k)) [
    | inl same ↦ rw same (delete-AllEntries P k m h.1)
    | inr other ↦ rw other (h.0, delete-AllEntries P k m h.1)
  ]

  -- What a lookup finds has the property of the entries.
  pub lookup-AllEntries {κ} :
      (P : K → V → Type κ) (k : K) (v : V) (m : Map K V)
      → AllEntries P m
      → lookup k m ≡ some v
      → P k v
  unfolding lookup
  lookup-AllEntries P k v [] h f = absurd (ground arith)
  lookup-AllEntries P k v ((i, w) ∷ m) h f = elim (Bool-cases (i == k)) [
    | inl same ↦ let e' : w ≡ v = ground arith in subst₂ P (eq_of_beq i k same) e' h.0
    | inr other ↦ lookup-AllEntries P k v m h.1 (ground arith)
  ]

  -- A new key goes to the end.
  pub put_new : (k : K) (v : V) (m : Map K V) → lookup k m ≡ none → put k v m ≡ m ++ ((k, v) ∷ [])
  unfolding lookup put
  put_new k v [] h = refl
  put_new k v ((i, w) ∷ m) h = ground (arith, put_new k v m)

  pub lookup-append :
      (k : K) (m n : Map K V)
      → lookup k (m ++ n) ≡ (elim (lookup k m) [ none ↦ lookup k n | some v ↦ some v ])
  unfolding lookup
  lookup-append k [] n = refl
  lookup-append k ((i, w) ∷ m) n = ground (arith, lookup-append k m n)

pub ruleset map_laws = (lookup-put, lookup-retain, lookup-delete, contains-put)
