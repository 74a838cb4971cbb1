-- ===== src/Tests/Barriers.antt =====
-- Two uses of one key of a Barrier: the first holds it and the second waits for it.
use kes.Prelude.{ℕ, ◌≤◌, ◌≡◌, refl, ◌⊎◌, true, List, [], ◌∷◌, ◌++◌, arith, nat_eq}
use kes.Prelude.Maps.{lookup, put}
use kes.Cache.Barrier.{
  Barrier, new_barrier, set_locked, add, KeyUse, outside, waiting, holding, Move, call_lock,
  acquire, System, step, Reach, start, later,
}
use kes.Cache.Barrier.Counts.{total}
use kes.Cache.Barrier.Invariant.{holds, owns}
use kes.Cache.Barrier.Safety.{mutual_exclusion, waiting_progress}

abbrev called : Barrier ℕ
called = (add 7 new_barrier).0

abbrev taken : Barrier ℕ
taken = set_locked 0 true called

abbrev contended : Barrier ℕ
contended = (add 7 taken).0

abbrev two : System ℕ
two = record { calls = holding 7 0 ∷ waiting 7 0 ∷ []; barrier = contended }

two_reached : Reach 2 two
unfolding add lookup put
two_reached =
    later
      (later (later start (step [] (outside ∷ []) (call_lock 7)))
        (step [] (outside ∷ []) (acquire refl)))
      (step (holding 7 0 ∷ []) [] (call_lock 7))

mutual_exclusion_example : total (holds 7) two.calls ≤ 1
mutual_exclusion_example = mutual_exclusion 2 (omega arith) two two_reached 7

waiting_progress_example :
    Move contended (waiting 7 0) (set_locked 0 true contended) (holding 7 0)
    ⊎ ((before' : List (KeyUse ℕ)) × (p : KeyUse ℕ) × (after' : List (KeyUse ℕ)) × (c : Barrier ℕ)
        × (p' : KeyUse ℕ) × ((two.calls ≡ before' ++ p ∷ after')
            × ((1 ≤ owns 0 p) × Move contended p c p')))
waiting_progress_example =
    waiting_progress 2 (omega arith) (holding 7 0 ∷ []) 7 0 [] contended two_reached
