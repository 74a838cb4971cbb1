-- ===== src/Api/Multicast/Steps.antt =====
-- What one step of a goroutine does to the writers of the group, and to the slices in use.
use kes.Prelude.{
  ℕ, ◌<◌, ◌≡◌, refl, ap, Bool, true, false, not, ◌&&◌, Option, none, some, List, [], ◌∷◌,
  if◌then◌else◌, select, Eq, ==_iff, nat_eq, arith, ◌⊎◌, inl, inr,
}
use kes.Prelude.Maps.{contains}
use kes.Api.Multicast.{
  Multicast, Call, add, remove, Outcome, returned, again, panicked, writers, members, store,
  add_round, remove_round, round, Pc, idle, looping, loaded, dead, after_round, Move, call, load,
  finish,
}

abbrev pub InUse : ℕ → Option ℕ → Type 0
InUse size none = Unit
InUse size (some p) = p < size

module _ {ℓ} {W : Type ℓ} ⦃e : Eq W⦄ where
  -- What a call means for the writers of the group.
  abbrev pub apply : Call W → List W → List W
  apply (add w) ws = if contains w ws then ws else w ∷ ws
  apply (remove w) ws = select (λ v. not (e.beq v w)) ws

  abbrev pub changes : Call W → List W → Bool
  changes (add w) ws = not (contains w ws)
  changes (remove w) ws = contains w ws

  select-absent :
      (w : W) (ws : List W) → contains w ws ≡ false → select (λ v. not (e.beq v w)) ws ≡ ws
  select-absent w [] h = refl
  select-absent w (v ∷ ws) h = ground (arith, select-absent w ws)

  apply-unchanged : (c : Call W) (ws : List W) → changes c ws ≡ false → apply c ws ≡ ws
  apply-unchanged (add w) ws h = ground arith
  apply-unchanged (remove w) ws h = select-absent w ws h

  -- The call of the goroutine has not taken effect yet. A call that would change nothing takes
  -- effect when it loads the group.
  abbrev pub pending : Multicast W → Pc W → Bool
  pending m idle = false
  pending m (looping c) = true
  pending m (loaded c old) = changes c (writers old m)
  pending m dead = true

  abbrev pub call_of : Pc W → List W → List W
  call_of idle ws = ws
  call_of (looping c) ws = apply c ws
  call_of (loaded c old) ws = apply c ws
  call_of dead ws = ws

  abbrev pub Placed : ℕ → Pc W → Type 0
  Placed size idle = Unit
  Placed size (looping c) = Unit
  Placed size (loaded c old) = InUse size old
  Placed size dead = Unit

  abbrev pub effect : Multicast W → Pc W → Multicast W → Pc W → List W
  effect m p m' p' = if pending m p && not (pending m' p') then call_of p (members m) else members m

  finish-effect :
      (c : Call W) (old : Option ℕ) (m : Multicast W)
      → let r = round c old m in members r.0 ≡ effect m (loaded c old) r.0 (after_round c r.1)
  unfolding round add_round remove_round
  finish-effect (add w) none m = ground (arith, ==_iff m.next m.next)
  finish-effect (add w) (some p) m = grind (arith, ==_iff)
  finish-effect (remove w) none m = ground arith
  finish-effect (remove w) (some p) m = grind (arith, ==_iff)

  -- A round leaves the slices that are in use as they are, and the group in use.
  pub record Keeps (m m' : Multicast W) : Type ℓ where
    pub slices : (q : ℕ) → q < m.next → m'.heap q ≡ m.heap q
    pub grows : (q : ℕ) → q < m.next → q < m'.next
    pub stays : InUse m.next m.group → InUse m'.next m'.group

  pub unchanged-Keeps : (m : Multicast W) → Keeps m m
  unchanged-Keeps m = record { slices = λ q h. refl; grows = λ q h. h; stays = λ h. h }

  store-Keeps : (ws : List W) (m : Multicast W) → Keeps m (store ws m)
  store-Keeps ws m = record {
    slices = λ q h. ground (arith, ==_iff m.next q);
    grows = λ q h. omega arith;
    stays = λ h. omega arith;
  }

  -- A round changes nothing, or stores the slice that it has made.
  round-store :
      (c : Call W) (old : Option ℕ) (m : Multicast W)
      → ((round c old m).0 ≡ m) ⊎ ((round c old m).0 ≡ store (apply c (writers old m)) m)
  unfolding round add_round remove_round
  round-store (add w) none m = ground arith
  round-store (add w) (some p) m = ground arith
  round-store (remove w) none m = inl refl
  round-store (remove w) (some p) m = ground arith

  round-Keeps : (c : Call W) (old : Option ℕ) (m : Multicast W) → Keeps m (round c old m).0
  round-Keeps c old m = elim (round-store c old m) [
    | inl same ↦ rw same (unchanged-Keeps m)
    | inr new ↦ rw new (store-Keeps (apply c (writers old m)) m)
  ]

  pub step-Keeps : {m m' : Multicast W} {p p' : Pc W} → Move m p m' p' → Keeps m m'
  step-Keeps {m} (call c) = unchanged-Keeps m
  step-Keeps {m} load = unchanged-Keeps m
  step-Keeps {m} (finish {c} {old}) = round-Keeps c old m

  pub pending-Keeps :
      {m m' : Multicast W}
      → Keeps m m'
      → (q : Pc W) → Placed m.next q
      → (pending m' q ≡ pending m q) × Placed m'.next q
  pending-Keeps k idle h = (refl, tt)
  pending-Keeps k (looping c) h = (refl, tt)
  pending-Keeps k (loaded c none) h = (refl, tt)
  pending-Keeps k (loaded c (some p)) h = (ap (changes c) (k.slices p h), k.grows p h)
  pending-Keeps k dead h = (refl, tt)

  pub step-effect :
      {m m' : Multicast W} {p p' : Pc W} → Move m p m' p' → members m' ≡ effect m p m' p'
  step-effect (call c) = refl
  step-effect {m} (load {c}) = ground (arith, apply-unchanged c (members m))
  step-effect {m} (finish {c} {old}) = finish-effect c old m

  round-Placed : (c : Call W) (o : Outcome) (size : ℕ) → Placed size (after_round c o)
  round-Placed c returned size = tt
  round-Placed c again size = tt
  round-Placed c panicked size = tt

  pub step-Placed :
      {m m' : Multicast W} {p p' : Pc W} → InUse m.next m.group → Move m p m' p' → Placed m'.next p'
  step-Placed h (call c) = tt
  step-Placed h load = h
  step-Placed {m} h (finish {c} {old}) = round-Placed c (round c old m).1 _
