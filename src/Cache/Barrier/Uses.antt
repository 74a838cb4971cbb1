-- ===== src/Cache/Barrier/Uses.antt =====
-- What a use needs and owns of a Barrier, before and after a change.
use kes.Prelude.{ℕ, ◌≤◌, ◌<◌, ◌≡◌, refl, false, some, arith, ==_iff, Eq}
use kes.Prelude.Maps.{lookup}
use kes.Cache.Barrier.{Barrier, count_down, remove, KeyUse, outside, waiting, holding, releasing}
use kes.Cache.Barrier.Invariant.{uses, owns, Placed}

module _ {ℓ} {K : Type ℓ} ⦃e : Eq K⦄ where
  pub uses-le : (k : K) (p : KeyUse K) → uses k p ≤ 1
  uses-le k outside = omega arith
  uses-le k (waiting key m) = ground arith
  uses-le k (holding key m) = ground arith
  uses-le k (releasing m) = omega arith

  -- A use that does not need the key that a change is about stays placed.
  pub Placed-kept :
      (b c : Barrier K) (key : K)
      → ((k : K) (m : ℕ)
          → e.beq k key ≡ false
          → lookup k b.keys ≡ some m
          → lookup k c.keys ≡ some m)
      → b.next ≤ c.next
      → (p : KeyUse K) → uses key p ≡ 0
      → Placed b p
      → Placed c p
  Placed-kept b c key h l outside z q = tt
  Placed-kept b c key h l (waiting k m) z q = h k m (ground arith) q
  Placed-kept b c key h l (holding k m) z q = h k m (ground arith) q
  Placed-kept b c key h l (releasing m) z q = omega arith

  pub Placed-implied :
      (b c : Barrier K)
      → ((k : K) (m : ℕ) → lookup k b.keys ≡ some m → lookup k c.keys ≡ some m)
      → b.next ≤ c.next
      → (p : KeyUse K) → Placed b p
      → Placed c p
  Placed-implied b c h l outside q = tt
  Placed-implied b c h l (waiting k m) q = h k m q
  Placed-implied b c h l (holding k m) q = h k m q
  Placed-implied b c h l (releasing m) q = omega arith

  -- Nobody has a pointer that is not in use.
  pub owns-unused :
      (b : Barrier K)
      → ((k : K) (m : ℕ) → lookup k b.keys ≡ some m → (1 ≤ (b.heap m).n) × (m < b.next))
      → (p : KeyUse K) → Placed b p
      → owns b.next p ≡ 0
  owns-unused b listed outside q = refl
  owns-unused b listed (waiting k m) q = refl
  owns-unused b listed (holding k m) q = ground (arith, ==_iff m b.next, listed k m q)
  owns-unused b listed (releasing m) q = ground (arith, ==_iff m b.next)

  pub remove-known :
      (b : Barrier K) (key : K) (m : ℕ)
      → lookup key b.keys ≡ some m
      → remove key b ≡ some (count_down key m b, m)
  unfolding remove
  remove-known b key m found = rw (remove, found) refl
