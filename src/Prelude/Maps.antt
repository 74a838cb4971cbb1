-- ===== src/Prelude/Maps.antt =====
-- Go maps as association lists. The order of the entries is the order in which `range` meets them.
use kes.Prelude.Tests.{Eq, if◌then◌else◌, is_some}
use kes.Prelude.Lists.{length}
use Prim.Native.Nat.{◌+◌, ◌≤◌}
use mathlib.Core.Path.{◌≡◌, refl}
use mathlib.Core.Bool.{Bool, false, ◌||◌}
use mathlib.Core.Option.{Option, none, some}
use mathlib.Core.List.{List, [], ◌∷◌}
use native.Mathlib.Omega.{arith}

abbrev pub Assoc {ℓ κ} : Type ℓ → Type κ → Type (ℓ ⊔ κ)
Assoc K V = List (K × V)

-- slices.Contains, and for the key list of a map whether a key is in it.
abbrev pub contains {ℓ} : {K : Type ℓ} ⦃e : Eq K⦄ → K → List K → Bool
contains j [] = false
contains ⦃e⦄ j (k ∷ ks) = e.beq k j || contains j ks

module _ {ℓ κ} {K : Type ℓ} {V : Type κ} ⦃e : Eq K⦄ where
  -- v, ok := m[k]
  unfoldable pub lookup : K → Assoc K V → Option V
  lookup k [] = none
  lookup k ((j, v) ∷ m) = if e.beq j k then some v else lookup k m

  -- m[k] = v
  unfoldable pub put : K → V → Assoc K V → Assoc K V
  put k v [] = (k, v) ∷ []
  put k v ((j, w) ∷ m) = if e.beq j k then (j, v) ∷ m else (j, w) ∷ put k v m

  -- delete(m, k)
  unfoldable pub erase : K → Assoc K V → Assoc K V
  erase k [] = []
  erase k ((j, w) ∷ m) = let rest = erase k m in if e.beq j k then rest else (j, w) ∷ rest

  -- No key is entered twice.
  abbrev pub Distinct : Assoc K V → Type κ
  Distinct [] = Unit
  Distinct ((k, v) ∷ m) = (lookup k m ≡ none) × Distinct m

  pub lookup-put :
      (k j : K) (v : V) (m : Assoc K V)
      → lookup j (put k v m) ≡ (if e.beq k j then some v else lookup j m)
  unfolding lookup put
  lookup-put k j v [] = refl
  lookup-put k j v ((i, w) ∷ m) =
      ground (arith, e.beq_iff k j, e.beq_iff i k, e.beq_iff i j, lookup-put k j v m)

  pub lookup-erase :
      (k j : K) (m : Assoc K V) → lookup j (erase k m) ≡ (if e.beq k j then none else lookup j m)
  unfolding lookup erase
  lookup-erase k j [] = ground arith
  lookup-erase k j ((i, w) ∷ m) =
      ground (arith, e.beq_iff k j, e.beq_iff i k, e.beq_iff i j, lookup-erase k j m)

  pub put-Distinct : (k : K) (v : V) (m : Assoc K V) → Distinct m → Distinct (put k v m)
  unfolding put lookup
  put-Distinct k v [] h = (refl, tt)
  put-Distinct k v ((j, w) ∷ m) h =
      ground (arith, e.beq_iff j k, e.beq_iff k j, lookup-put k j v m, put-Distinct k v m h.1)

  pub erase-Distinct : (k : K) (m : Assoc K V) → Distinct m → Distinct (erase k m)
  unfolding erase
  erase-Distinct k [] h = h
  erase-Distinct k ((j, w) ∷ m) h = ground (arith, lookup-erase k j m, erase-Distinct k m h.1)

  pub length-put :
      (k : K) (v : V) (m : Assoc K V)
      → length (put k v m) ≡ (if is_some (lookup k m) then length m else length m + 1)
  unfolding lookup put
  length-put k v [] = refl
  length-put k v ((j, w) ∷ m) = ground (arith, length-put k v m)

  pub length-erase : (k : K) (m : Assoc K V) → length (erase k m) ≤ length m
  unfolding erase
  length-erase k [] = omega arith
  length-erase k ((j, w) ∷ m) = ground (arith, length-erase k m)
