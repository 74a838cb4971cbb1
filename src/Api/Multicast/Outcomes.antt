-- ===== src/Api/Multicast/Outcomes.antt =====
-- The panic of racing calls of Add, and what Write returns.
use kes.Prelude.{
  ℕ, ◌≡◌, refl, false, none, some, List, [], ◌∷◌, length, Eq, Text, text_eq, nat_eq, arith, ◌==◌,
  if◌then◌else◌, Option-cases, inl, inr,
}
use kes.Api.Errors.{Error}
use kes.Api.Multicast.{
  Multicast, add, members, add_round, round, store, idle, looping, loaded, dead, call, load, finish,
  new_multicast, step, Reach, start, later, Taken, write_error, write_all, whole, write_group,
  write,
}

module _ {ℓ} {W : Type ℓ} ⦃e : Eq W⦄ where
  -- Two goroutines that add writers to an empty Multicast can come to where the one of them has
  -- returned and the other has panicked.
  pub racing_adds :
      (w v : W)
      → (m : Multicast W) × Reach 2 (record { threads = idle ∷ dead ∷ []; multicast = m })
        × (members m ≡ w ∷ [])
  unfolding round add_round
  racing_adds w v =
      let one : Reach 2
          (record { threads = looping (add w) ∷ idle ∷ []; multicast = new_multicast }) =
        later start (step [] (idle ∷ []) (call (add w))) in
      let two : Reach 2
          (record { threads = looping (add w) ∷ looping (add v) ∷ []; multicast = new_multicast }) =
        later one (step (looping (add w) ∷ []) [] (call (add v))) in
      let three : Reach 2 (record {
        threads = loaded (add w) none ∷ looping (add v) ∷ [];
        multicast = new_multicast;
      }) =
        later two (step [] (looping (add v) ∷ []) load) in
      let four : Reach 2 (record {
        threads = loaded (add w) none ∷ loaded (add v) none ∷ [];
        multicast = new_multicast;
      }) =
        later three (step (loaded (add w) none ∷ []) [] load) in
      let five : Reach 2 (record {
        threads = idle ∷ loaded (add v) none ∷ [];
        multicast = store (w ∷ []) new_multicast;
      }) =
        later four (step [] (loaded (add v) none ∷ []) finish) in
      (store (w ∷ []) new_multicast, later five (step (idle ∷ []) [] finish), refl)

module _ {ℓ κ} {W : Type ℓ} {S : Type κ} (write_to : W → Text → S → S × Taken) where
  -- The states of the writers after each has been written to, and what they took.
  unfoldable pub visit : List W → Text → S → S × List Taken
  visit [] p s = (s, [])
  visit (w ∷ ws) p s =
      let (s', taken) = write_to w p s in let (t, rest) = visit ws p s' in (t, taken ∷ rest)

  unfoldable pub first_failure : ℕ → List Taken → Taken
  first_failure size [] = (size, none)
  first_failure size (taken ∷ rest) = elim (write_error size taken) [
    | none ↦ first_failure size rest
    | some failed ↦ (taken.0, some failed)
  ]

  write_all-failed :
      (ws : List W) (p : Text) (n : ℕ) (failed : Error) (s : S)
      → write_all write_to ws p (n, some failed) s ≡ ((visit ws p s).0, (n, some failed))
  unfolding write_all visit
  write_all-failed [] p n failed s = refl
  write_all-failed (w ∷ ws) p n failed s = write_all-failed ws p n failed (write_to w p s).0

  write_all-first :
      (ws : List W) (p : Text) (s : S)
      → ((write_all write_to ws p (0, none) s).0 ≡ (visit ws p s).0)
        × (whole (length p) (write_all write_to ws p (0, none) s).1
            ≡ first_failure (length p) (visit ws p s).1)
  unfolding write_all visit first_failure
  write_all-first [] p s = (refl, refl)
  write_all-first (w ∷ ws) p s =
      let r = write_to w p s in
      elim (Option-cases (write_error (length p) r.1)) [
        | inl h ↦ rw (h, write_all, first_failure) (write_all-first ws p r.0)
        | inr (failed, h) ↦
            rw (h, write_all, first_failure, write_all-failed ws p r.1.0 failed r.0) (refl, refl)
      ]

  write_group_lem :
      (ws : List W) (p : Text) (s : S)
      → ((write_group write_to ws p s).0 ≡ (visit ws p s).0)
        × ((write_group write_to ws p s).1
            ≡ (if length ws == 0 then (0, none) else first_failure (length p) (visit ws p s).1))
  unfolding visit
  write_group_lem [] p s = (refl, refl)
  write_group_lem (w ∷ ws) p s =
      let some_writer : (length (w ∷ ws) == 0) ≡ false = ground arith in
      rw some_writer (write_all-first (w ∷ ws) p s)

  -- Write writes to every writer of the group. It returns the size of what was written, or what the
  -- first writer that failed returned, where a short write without an error has failed.
  pub write_lem :
      (p : Text) (m : Multicast W) (s : S)
      → ((write write_to p m s).0 ≡ (visit (members m) p s).0)
        × ((write write_to p m s).1 ≡ (
            if length (members m) == 0
            then (0, none)
            else first_failure (length p) (visit (members m) p s).1))
  unfolding write visit
  write_lem p m s = elim (Option-cases m.group) [
    | inl h ↦ rw (h, write) (refl, refl)
    | inr (q, h) ↦ rw (h, write) (write_group_lem (m.heap q) p s)
  ]
