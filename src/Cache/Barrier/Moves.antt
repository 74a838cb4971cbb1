-- ===== src/Cache/Barrier/Moves.antt =====
-- A move of one use keeps the invariant.
use kes.Prelude.{
  ℕ, ◌+◌, ◌^◌, ◌<◌, ◌≡◌, refl, sym, ◌∙◌, ◌↔◌, inl, inr, true, false, none, some, List, ◌∷◌, arith,
  ◌==◌, ==_iff, if◌then◌else◌, Bool-cases, Option-cases, Eq, length,
}
use mathlib.Core.Path.{subst}
use mathlib.Core.Option.{some-injective}
use kes.Prelude.Maps.{lookup, lookup-put, lookup-erase}
use kes.Cache.Barrier.{
  Barrier, set_locked, count_up, new_lock, add, lower, forget, count_down, KeyUse, outside, waiting,
  holding, releasing, Move, call_lock, acquire, call_unlock, release,
}
use kes.Cache.Barrier.Counts.{total, total-length, total-none, All-implied, All-uncounted}
use kes.Cache.Barrier.Invariant.{uses, owns, Placed, users, Inv}
use kes.Cache.Barrier.Uses.{uses-le, Placed-kept, Placed-implied, owns-unused, remove-known}

module _ {ℓ} {K : Type ℓ} ⦃e : Eq K⦄ {size : ℕ} {rest : List (KeyUse K)} {b : Barrier K} where
  acquire-Inv :
      (key : K) (m : ℕ)
      → Inv size (waiting key m ∷ rest) b
      → (b.heap m).locked ≡ false
      → Inv size (holding key m ∷ rest) (set_locked m true b)
  unfolding total
  acquire-Inv key m inv free = record {
    sized = inv.sized;
    counted = λ k. ground (arith, inv.counted k);
    listed = λ k i h. ground (arith, inv.listed k i h);
    apart = λ k j i h g. inv.apart k j i h g;
    locks = λ i. ground (arith, inv.locks i, ==_iff m i);
    placed = (
      inv.placed.0,
      All-implied (Placed b) (Placed (set_locked m true b))
          (Placed-implied b (set_locked m true b) (λ k i h. h) (omega arith)) rest inv.placed.1,
    );
  }

  release-Inv :
      (m : ℕ) → Inv size (releasing m ∷ rest) b → Inv size (outside ∷ rest) (set_locked m false b)
  unfolding total
  release-Inv m inv = record {
    sized = inv.sized;
    counted = λ k. ground (arith, inv.counted k);
    listed = λ k i h. ground (arith, inv.listed k i h);
    apart = λ k j i h g. inv.apart k j i h g;
    locks = λ i. ground (arith, inv.locks i, ==_iff m i);
    placed = (
      tt,
      All-implied (Placed b) (Placed (set_locked m false b))
          (Placed-implied b (set_locked m false b) (λ k i h. h) (omega arith)) rest inv.placed.1,
    );
  }

  -- Fewer than 2^64 uses, so N does not wrap around.
  module _ (few : size < 2 ^ 64) where
    add_known-Inv :
        (key : K) (m : ℕ)
        → Inv size (outside ∷ rest) b
        → lookup key b.keys ≡ some m
        → Inv size (waiting key m ∷ rest) (count_up m b)
    unfolding total
    add_known-Inv key m inv found =
        let bound = total-length (uses key) (uses-le key) rest in
        record {
          sized = inv.sized;
          counted = λ k. ground (
            arith,
            inv.counted k,
            inv.counted key,
            inv.sized,
            inv.apart k key m,
            e.beq_iff key k,
          );
          listed = λ k i h. ground (arith, inv.listed k i h, inv.sized, inv.counted key);
          apart = λ k j i h g. inv.apart k j i h g;
          locks = λ i. ground (arith, inv.locks i, ==_iff m i);
          placed = (
            found,
            All-implied (Placed b) (Placed (count_up m b))
                (Placed-implied b (count_up m b) (λ k i h. h) (omega arith)) rest inv.placed.1,
          );
        }

    add_new-Inv :
        (key : K)
        → Inv size (outside ∷ rest) b
        → lookup key b.keys ≡ none
        → Inv size (waiting key b.next ∷ rest) (count_up b.next (new_lock key b))
    unfolding total
    add_new-Inv key inv free =
        let unused =
          total-none (owns b.next) (Placed b) (owns-unused b inv.listed) rest inv.placed.1 in
        let c = count_up b.next (new_lock key b) in
        let found : (k : K)
            → lookup k c.keys ≡ (if e.beq key k then some b.next else lookup k b.keys) =
          λ k. lookup-put key k b.next b.keys in
        let same : (k : K) → (e.beq key k ≡ true) ↔ (key ≡ k) = λ k. e.beq_iff key k in
        let known : (k : K) (m : ℕ) → lookup k b.keys ≡ some m → lookup k c.keys ≡ some m =
          λ k m h. ground (arith, found k, same k) in
        record {
          sized = inv.sized;
          counted = λ k. elim (Option-cases (lookup k b.keys)) [
            | inl h ↦ ground (arith, inv.counted k, found k)
            | inr (m, h) ↦ ground (arith, inv.counted k, inv.listed k m h, found k, same k)
          ];
          listed = λ k i h. ground (arith, inv.listed k i, found k);
          apart = λ k j i h g. ground (
            arith,
            inv.apart k j i,
            inv.listed k i,
            inv.listed j i,
            found k,
            found j,
            same k,
            same j,
          );
          locks = λ i. ground (arith, inv.locks i, ==_iff b.next i);
          placed = (
            found key ∙ rw ((same key).1 refl),
            All-implied (Placed b) (Placed c) (Placed-implied b c known (omega arith)) rest
                inv.placed.1,
          );
        }

    keep-Inv :
        (key : K) (m : ℕ)
        → Inv size (holding key m ∷ rest) b
        → ((lower m b).heap m).n == 0 ≡ false
        → Inv size (releasing m ∷ rest) (lower m b)
    unfolding total
    keep-Inv key m inv left =
        let bound = total-length (uses key) (uses-le key) rest in
        let same : (k : K) → (e.beq key k ≡ true) ↔ (key ≡ k) = λ k. e.beq_iff key k in
        let found : lookup key b.keys ≡ some m = inv.placed.0 in
        let sized : length rest + 1 ≡ size = omega (arith, inv.sized) in
        let users_of : uses key (holding key m) + total (uses key) rest ≡ (b.heap m).n =
          inv.counted key ∙ rw (users, found) in
        record {
          sized = inv.sized;
          counted = λ k. ground (arith, inv.counted k, inv.apart k key m, same k, same key);
          listed = λ k i h. ground (arith, inv.listed k i h, ==_iff m i);
          apart = λ k j i h g. inv.apart k j i h g;
          locks = λ i. ground (arith, inv.locks i, ==_iff m i);
          placed = (
            (inv.listed key m found).1,
            All-implied (Placed b) (Placed (lower m b))
                (Placed-implied b (lower m b) (λ k i h. h) (omega arith)) rest inv.placed.1,
          );
        }

    forget-Inv :
        (key : K) (m : ℕ)
        → Inv size (holding key m ∷ rest) b
        → ((lower m b).heap m).n == 0 ≡ true
        → Inv size (releasing m ∷ rest) (forget key (lower m b))
    unfolding total
    forget-Inv key m inv last =
        let bound = total-length (uses key) (uses-le key) rest in
        let c = forget key (lower m b) in
        let same : (k : K) → (e.beq key k ≡ true) ↔ (key ≡ k) = λ k. e.beq_iff key k in
        let found : lookup key b.keys ≡ some m = inv.placed.0 in
        let sized : length rest + 1 ≡ size = omega (arith, inv.sized) in
        let users_of : uses key (holding key m) + total (uses key) rest ≡ (b.heap m).n =
          inv.counted key ∙ rw (users, found) in
        let unused : total (uses key) rest ≡ 0 = ground (arith, same key) in
        let gone : (k : K) → lookup k c.keys ≡ (if e.beq key k then none else lookup k b.keys) =
          λ k. lookup-erase key k b.keys in
        let known : (k : K) (i : ℕ)
            → e.beq k key ≡ false
            → lookup k b.keys ≡ some i
            → lookup k c.keys ≡ some i =
          λ k i h g. ground (arith, gone k, same k, e.beq_iff k key) in
        record {
          sized = inv.sized;
          counted = λ k. elim (Option-cases (lookup k b.keys)) [
            | inl h ↦ ground (arith, inv.counted k, gone k)
            | inr (i, h) ↦
                ground
                  (arith, inv.counted k, inv.apart k key m, gone k, same k, same key, ==_iff m i)
          ];
          listed = λ k i h.
              ground
                (arith, inv.listed k i, inv.apart k key m, gone k, same k, same key, ==_iff m i);
          apart = λ k j i h g. ground (arith, inv.apart k j i, gone k, gone j);
          locks = λ i. ground (arith, inv.locks i, ==_iff m i);
          placed = (
            (inv.listed key m found).1,
            All-uncounted (Placed b) (uses key) (Placed c) (Placed-kept b c key known (omega arith))
                rest unused inv.placed.1,
          );
        }

    count_down-Inv :
        (key : K) (m : ℕ)
        → Inv size (holding key m ∷ rest) b
        → Inv size (releasing m ∷ rest) (count_down key m b)
    unfolding count_down
    count_down-Inv key m inv = elim (Bool-cases (((lower m b).heap m).n == 0)) [
      | inl h ↦ rw (count_down, h) (forget-Inv key m inv h)
      | inr h ↦ rw (count_down, h) (keep-Inv key m inv h)
    ]

    add-Inv :
        (key : K)
        → Inv size (outside ∷ rest) b
        → Inv size (waiting key (add key b).1 ∷ rest) (add key b).0
    unfolding add
    add-Inv key inv = elim (Option-cases (lookup key b.keys)) [
      | inl h ↦ rw (add, h) (add_new-Inv key inv h)
      | inr (m, h) ↦ rw (add, h) (add_known-Inv key m inv h)
    ]

    pub Move-Inv :
        {p p' : KeyUse K} {c : Barrier K}
        → Move b p c p'
        → Inv size (p ∷ rest) b
        → Inv size (p' ∷ rest) c
    Move-Inv (call_lock key) inv = add-Inv key inv
    Move-Inv (acquire {key} {m} free) inv = acquire-Inv key m inv free
    Move-Inv (call_unlock {key} {m} {m'} {b'} removed) inv =
        subst (λ (x : Barrier K × ℕ). Inv size (releasing x.1 ∷ rest) x.0)
          (some-injective _ _ (sym (remove-known b key m inv.placed.0) ∙ removed))
          (count_down-Inv key m inv)
    Move-Inv (release {m}) inv = release-Inv m inv
