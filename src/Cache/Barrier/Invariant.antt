-- ===== src/Cache/Barrier/Invariant.antt =====
-- The invariant of the uses of keys and the Barrier that they share.
use kes.Prelude.{ℕ, ◌≤◌, ◌<◌, ◌≡◌, Bool, none, some, List, ◌==◌, if◌then◌else◌, Eq, length, All}
use kes.Prelude.Maps.{lookup}
use kes.Cache.Barrier.{Barrier, KeyUse, outside, waiting, holding, releasing}
use kes.Cache.Barrier.Counts.{total}

abbrev pub bit : Bool → ℕ
bit b = if b then 1 else 0

module _ {ℓ} {K : Type ℓ} ⦃e : Eq K⦄ where
  -- The use waits for the key or holds it.
  abbrev pub uses : K → KeyUse K → ℕ
  uses k outside = 0
  uses k (waiting key m) = bit (e.beq key k)
  uses k (holding key m) = bit (e.beq key k)
  uses k (releasing m) = 0

  abbrev pub holds : K → KeyUse K → ℕ
  holds k (holding key m) = bit (e.beq key k)
  holds k p = 0

  -- The use has the mutex of the pointer locked.
  abbrev pub owns : ℕ → KeyUse K → ℕ
  owns i outside = 0
  owns i (waiting key m) = 0
  owns i (holding key m) = bit (m == i)
  owns i (releasing m) = bit (m == i)

  -- The pointer of the use is the one that the map has for its key.
  abbrev pub Placed : Barrier K → KeyUse K → Type 0
  Placed b outside = Unit
  Placed b (waiting key m) = lookup key b.keys ≡ some m
  Placed b (holding key m) = lookup key b.keys ≡ some m
  Placed b (releasing m) = m < b.next

  -- N of the key, 0 where the map does not have it.
  abbrev pub users : Barrier K → K → ℕ
  users b k = elim (lookup k b.keys) [ none ↦ 0 | some m ↦ (b.heap m).n ]

  pub record Inv (size : ℕ) (ps : List (KeyUse K)) (b : Barrier K) : Type ℓ where
    pub sized : length ps ≡ size
    pub counted : (k : K) → total (uses k) ps ≡ users b k
    pub listed : (k : K) (m : ℕ) → lookup k b.keys ≡ some m → (1 ≤ (b.heap m).n) × (m < b.next)
    pub apart : (k j : K) (m : ℕ) → lookup k b.keys ≡ some m → lookup j b.keys ≡ some m → k ≡ j
    pub locks : (m : ℕ) → total (owns m) ps ≡ bit (b.heap m).locked
    pub placed : All (Placed b) ps
