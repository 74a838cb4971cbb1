-- ===== src/Api/Multicast/Linear.antt =====
-- Each call of Add and Remove takes effect at once, between its start and its return.
use kes.Prelude.{
  ℕ, zero, suc, ◌≡◌, refl, false, not, ◌&&◌, List, [], ◌∷◌, ◌++◌, if◌then◌else◌, select, Eq, All,
  nat_eq, arith, Bool-cases, inl, inr,
}
use kes.Prelude.Maps.{contains}
use kes.Cache.Barrier.Counts.{All-to_front, All-to_middle}
use kes.Api.Multicast.{
  Multicast, Call, add, remove, members, Pc, idle, looping, loaded, dead, Move, all_idle, System,
  step, Reach, start, later,
}
use kes.Api.Multicast.Steps.{
  apply, pending, call_of, InUse, Placed, effect, Keeps, step-Keeps, pending-Keeps, step-effect,
  step-Placed,
}

idle-Placed {ℓ} : (W : Type ℓ) ⦃e : Eq W⦄ (size n : ℕ) → All (Placed size) (all_idle {W = W} n)
idle-Placed W size zero = tt
idle-Placed W size (suc n) = (tt, idle-Placed W size n)

module _ {ℓ} {W : Type ℓ} ⦃e : Eq W⦄ where
  abbrev pub Distinct : List W → Type 0
  Distinct [] = Unit
  Distinct (w ∷ ws) = (contains w ws ≡ false) × Distinct ws

  contains-select :
      (w v : W) (ws : List W)
      → contains v ws ≡ false
      → contains v (select (λ u. not (e.beq u w)) ws) ≡ false
  contains-select w v [] h = refl
  contains-select w v (u ∷ ws) h = ground (arith, contains-select w v ws)

  select-Distinct :
      (w : W) (ws : List W) → Distinct ws → Distinct (select (λ u. not (e.beq u w)) ws)
  select-Distinct w [] h = tt
  select-Distinct w (u ∷ ws) h = elim (Bool-cases (e.beq u w)) [
    | inl t ↦ rw t (select-Distinct w ws h.1)
    | inr t ↦ rw t (contains-select w u ws h.0, select-Distinct w ws h.1)
  ]

  apply-Distinct : (c : Call W) (ws : List W) → Distinct ws → Distinct (apply c ws)
  apply-Distinct (add w) ws h = elim (Bool-cases (contains w ws)) [
    | inl t ↦ rw t h
    | inr t ↦ rw t (t, h)
  ]
  apply-Distinct (remove w) ws h = select-Distinct w ws h

  pub record Inv (s : System W) : Type ℓ where
    pub placed : All (Placed s.multicast.next) s.threads
    pub group : InUse s.multicast.next s.multicast.group
    pub distinct : Distinct (members s.multicast)

  call_of-Distinct : (p : Pc W) (ws : List W) → Distinct ws → Distinct (call_of p ws)
  call_of-Distinct idle ws h = h
  call_of-Distinct (looping c) ws h = apply-Distinct c ws h
  call_of-Distinct (loaded c old) ws h = apply-Distinct c ws h
  call_of-Distinct dead ws h = h

  effect-Distinct :
      (m m' : Multicast W) (p p' : Pc W) → Distinct (members m) → Distinct (effect m p m' p')
  effect-Distinct m m' p p' h = elim (Bool-cases (pending m p && not (pending m' p'))) [
    | inl t ↦ rw t (call_of-Distinct p (members m) h)
    | inr t ↦ rw t h
  ]

  others-Placed :
      (m m' : Multicast W)
      → Keeps m m'
      → (ps : List (Pc W)) → All (Placed m.next) ps
      → All (Placed m'.next) ps
  others-Placed m m' k [] h = tt
  others-Placed m m' k (q ∷ ps) h = ((pending-Keeps k q h.0).1, others-Placed m m' k ps h.1)

  Reach-Inv : (n : ℕ) (s : System W) → Reach n s → Inv s
  Reach-Inv n _ start = record { placed = idle-Placed W 0 n; group = tt; distinct = tt }
  Reach-Inv n _ (later r (step before after {p} {p'} {m} {m'} mv)) =
      let inv = Reach-Inv n _ r in
      let front = All-to_front (Placed m.next) before p after inv.placed in
      record {
        placed = All-to_middle (Placed m'.next) before p' after (
          step-Placed inv.group mv,
          others-Placed m m' (step-Keeps mv) (before ++ after) front.1,
        );
        group = (step-Keeps mv).stays inv.group;
        distinct = rw (step-effect mv) (effect-Distinct m m' p p' inv.distinct);
      }

  others-pending :
      (m m' : Multicast W)
      → Keeps m m'
      → (ps : List (Pc W)) → All (Placed m.next) ps
      → All (λ q. pending m' q ≡ pending m q) ps
  others-pending m m' k [] h = tt
  others-pending m m' k (q ∷ ps) h = ((pending-Keeps k q h.0).0, others-pending m m' k ps h.1)

  -- Whatever n goroutines have done: a step of one of them leaves the writers of the group as they
  -- are, or is the one at which its call takes effect, and then it does to them what the call
  -- means. Whether the calls of the others have taken effect stays as it was.
  pub step_linear :
      (n : ℕ) (before after : List (Pc W)) (p p' : Pc W) (m m' : Multicast W)
      → Reach n (record { threads = before ++ p ∷ after; multicast = m })
      → Move m p m' p'
      → (members m'
          ≡ (if pending m p && not (pending m' p') then call_of p (members m) else members m))
        × All (λ q. pending m' q ≡ pending m q) (before ++ after)
  step_linear n before after p p' m m' r mv =
      let inv = Reach-Inv n _ r in
      let front = All-to_front (Placed m.next) before p after inv.placed in
      (step-effect mv, others-pending m m' (step-Keeps mv) (before ++ after) front.1)

  -- No writer is ever twice in the group.
  pub members-Distinct : (n : ℕ) (s : System W) → Reach n s → Distinct (members s.multicast)
  members-Distinct n s r = (Reach-Inv n s r).distinct
