-- ===== src/Cache/Barrier/Safety.antt =====
-- What the callers of Lock and Unlock can rely on.
use kes.Prelude.{
  ℕ, zero, suc, ◌^◌, ◌≤◌, ◌<◌, ◌≡◌, refl, sym, ap, ◌∙◌, ◌⊎◌, inl, inr, true, false, some, List, ◌∷◌,
  ◌++◌, arith, ltb, ==_iff, Bool-cases, Option-cases, is_some, Eq, length, All,
}
use mathlib.Core.Path.{subst}
use kes.Prelude.Maps.{lookup}
use kes.Cache.Barrier.{
  Barrier, new_barrier, set_locked, count_down, remove, KeyUse, outside, waiting, holding,
  releasing, Move, acquire, call_unlock, release, System, step, all_outside, Reach, start, later,
}
use kes.Cache.Barrier.Counts.{
  total, total-append_middle, total-le, total-positive, length-append_middle, All-to_front,
  All-to_middle,
}
use kes.Cache.Barrier.Invariant.{uses, holds, owns, Placed, users, Inv}
use kes.Cache.Barrier.Uses.{remove-known}
use kes.Cache.Barrier.Moves.{Move-Inv}

outside-length {ℓ} : (K : Type ℓ) (n : ℕ) → length (all_outside {K = K} n) ≡ n
outside-length K zero = refl
outside-length K (suc n) = ap suc (outside-length K n)

module _ {ℓ} {K : Type ℓ} ⦃e : Eq K⦄ where
  -- The invariant does not depend on where in the list a use is.
  Inv-to_front :
      (size : ℕ) (before : List (KeyUse K)) (p : KeyUse K) (after : List (KeyUse K)) (b : Barrier K)
      → Inv size (before ++ p ∷ after) b
      → Inv size (p ∷ before ++ after) b
  Inv-to_front size before p after b inv = record {
    sized = sym (length-append_middle before p after) ∙ inv.sized;
    counted = λ k. sym (total-append_middle (uses k) before p after) ∙ inv.counted k;
    listed = inv.listed;
    apart = inv.apart;
    locks = λ m. sym (total-append_middle (owns m) before p after) ∙ inv.locks m;
    placed = All-to_front (Placed b) before p after inv.placed;
  }

  Inv-to_middle :
      (size : ℕ) (before : List (KeyUse K)) (p : KeyUse K) (after : List (KeyUse K)) (b : Barrier K)
      → Inv size (p ∷ before ++ after) b
      → Inv size (before ++ p ∷ after) b
  Inv-to_middle size before p after b inv = record {
    sized = length-append_middle before p after ∙ inv.sized;
    counted = λ k. total-append_middle (uses k) before p after ∙ inv.counted k;
    listed = inv.listed;
    apart = inv.apart;
    locks = λ m. total-append_middle (owns m) before p after ∙ inv.locks m;
    placed = All-to_middle (Placed b) before p after inv.placed;
  }

  outside-none : (f : KeyUse K → ℕ) → f outside ≡ 0 → (n : ℕ) → total f (all_outside n) ≡ 0
  unfolding total
  outside-none f h zero = refl
  outside-none f h (suc n) = omega (arith, outside-none f h n)

  outside-Placed : (n : ℕ) (b : Barrier K) → All (Placed b) (all_outside n)
  outside-Placed zero b = tt
  outside-Placed (suc n) b = (tt, outside-Placed n b)

  start-Inv : (n : ℕ) → Inv n (all_outside n) (new_barrier {K = K})
  unfolding lookup
  start-Inv n = record {
    sized = outside-length K n;
    counted = λ k. outside-none (uses k) refl n;
    listed = λ k m h. ground arith;
    apart = λ k j m h g. absurd (ground arith);
    locks = λ m. outside-none (owns m) refl n;
    placed = outside-Placed n new_barrier;
  }

  Reach-Inv : (n : ℕ) → n < 2 ^ 64 → (s : System K) → Reach n s → Inv n s.calls s.barrier
  Reach-Inv n few _ start = start-Inv n
  Reach-Inv n few _ (later r (step before after {p} {p'} {b} {b'} mv)) =
      let inv = Reach-Inv n few _ r in
      Inv-to_middle n before p' after b' (Move-Inv few mv (Inv-to_front n before p after b inv))

  holds-owns :
      (b : Barrier K) (key : K) (m : ℕ)
      → lookup key b.keys ≡ some m
      → (p : KeyUse K) → Placed b p
      → holds key p ≤ owns m p
  holds-owns b key m found outside q = omega arith
  holds-owns b key m found (waiting k i) q = omega arith
  holds-owns b key m found (holding k i) q = ground (arith, e.beq_iff k key, ==_iff i m)
  holds-owns b key m found (releasing i) q = omega arith

  holds-uses : (b : Barrier K) (k : K) (p : KeyUse K) → Placed b p → holds k p ≤ uses k p
  holds-uses b k outside q = omega arith
  holds-uses b k (waiting key i) q = ground arith
  holds-uses b k (holding key i) q = omega arith
  holds-uses b k (releasing i) q = omega arith

  -- With fewer than 2^64 uses in progress at once, in whatever order their steps come, and whichever
  -- goroutines call Lock and Unlock: of the calls of Lock for a key that have returned, at most one is
  -- without a call of Unlock. A goroutine whose key another one unlocks has passed it on.
  pub mutual_exclusion :
      (n : ℕ) → n < 2 ^ 64 → (s : System K) → Reach n s → (key : K) → total (holds key) s.calls ≤ 1
  mutual_exclusion n few s r key =
      let inv = Reach-Inv n few s r in
      let b = s.barrier in
      elim (Option-cases (lookup key b.keys)) [
        | inl h ↦
            let none_left : total (uses key) s.calls ≡ 0 = inv.counted key ∙ rw (users, h) refl in
            let fewer =
              total-le (holds key) (uses key) (Placed b) (holds-uses b key) s.calls inv.placed in
            omega arith
        | inr (m, h) ↦
            let fewer =
              total-le (holds key) (owns m) (Placed b) (holds-owns b key m h) s.calls inv.placed in
            ground (arith, inv.locks m)
      ]

  -- A key is in the map exactly while a use waits for it or holds it.
  pub keys_used :
      (n : ℕ)
      → n < 2 ^ 64
      → (s : System K) → Reach n s
      → (key : K) → is_some (lookup key s.barrier.keys) ≡ ltb 0 (total (uses key) s.calls)
  keys_used n few s r key =
      let inv = Reach-Inv n few s r in
      elim (Option-cases (lookup key s.barrier.keys)) [
        | inl h ↦ ground (arith, inv.counted key)
        | inr (m, h) ↦ ground (arith, inv.counted key, inv.listed key m h)
      ]

  -- The Unlock of a key that is held does not panic, and the pointer that it gets to unlock is the
  -- one that Lock locked.
  pub unlock-held :
      (n : ℕ)
      → n < 2 ^ 64
      → (before : List (KeyUse K)) (key : K) (m : ℕ) (after : List (KeyUse K)) (b : Barrier K)
      → Reach n (record { calls = before ++ holding key m ∷ after; barrier = b })
      → (c : Barrier K) × ((remove key b ≡ some (c, m)) × ((b.heap m).locked ≡ true))
  unfolding total
  unlock-held n few before key m after b r =
      let inv = Inv-to_front n before (holding key m) after b (Reach-Inv n few _ r) in
      (
        count_down key m b,
        (remove-known b key m inv.placed.0, ground (arith, inv.locks m, ==_iff m m)),
      )

  owner_moves :
      (b : Barrier K) (m : ℕ) (p : KeyUse K)
      → Placed b p
      → 1 ≤ owns m p
      → (c : Barrier K) × (p' : KeyUse K) × Move b p c p'
  owner_moves b m outside q l = absurd (omega arith)
  owner_moves b m (waiting key i) q l = absurd (omega arith)
  owner_moves b m (holding key i) q l =
      (count_down key i b, releasing i, call_unlock (remove-known b key i q))
  owner_moves b m (releasing i) q l = (set_locked i false b, outside, release)

  -- With fewer than 2^64 uses in progress at once: a Lock that waits can go on, or a use has its
  -- mutex locked whose Unlock can be called without a panic, or can unlock the mutex. A Lock waits for
  -- nothing but an Unlock; whether a caller that holds a key calls Unlock, which one that waits for
  -- another key may not do, is not said.
  pub waiting_progress :
      (n : ℕ)
      → n < 2 ^ 64
      → (before : List (KeyUse K)) (key : K) (m : ℕ) (after : List (KeyUse K)) (b : Barrier K)
      → let calls = before ++ waiting key m ∷ after in
        Reach n (record { calls = calls; barrier = b })
        → Move b (waiting key m) (set_locked m true b) (holding key m)
          ⊎ ((before' : List (KeyUse K)) × (p : KeyUse K) × (after' : List (KeyUse K))
              × (c : Barrier K) × (p' : KeyUse K) × ((calls ≡ before' ++ p ∷ after')
                  × ((1 ≤ owns m p) × Move b p c p')))
  waiting_progress n few before key m after b r =
      let inv = Reach-Inv n few _ r in
      elim (Bool-cases (b.heap m).locked) [
        | inl h ↦
            let (before', p, after', (same, own)) =
              total-positive (owns m) (before ++ waiting key m ∷ after)
                (ground (arith, inv.locks m)) in
            let placed : All (Placed b) (p ∷ before' ++ after') =
              All-to_front (Placed b) before' p after'
                (subst (λ (l : List (KeyUse K)). All (Placed b) l) same inv.placed) in
            let (c, p', mv) = owner_moves b m p placed.0 own in
            inr (before', p, after', c, p', (same, (own, mv)))
        | inr h ↦ inl (acquire h)
      ]
