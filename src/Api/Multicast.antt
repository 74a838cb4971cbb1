-- ===== src/Api/Multicast.antt =====
-- internal/api/multicast.go: a group of io.Writers behind an atomic pointer, and the goroutines that
-- add and remove writers. Loads and compare-and-swaps are the atomic steps; what comes between them
-- reads slices that are never changed once a pointer to them is stored.
pub mod Linear
pub mod Steps
pub mod Outcomes
use kes.Prelude.{
  ℕ, zero, suc, ◌+◌, ◌==◌, Bool, false, not, Option, none, some, List, [], ◌∷◌, ◌++◌, ltb,
  if◌then◌else◌, length, select, Eq, nat_eq, Text, text_eq, arith,
}
use kes.Prelude.Maps.{contains}
use kes.Api.Errors.{Error, plain, message}
use kes.Cache.Barrier.{assign}

-- `group` is the atomic pointer; pointers from `next` on are not in use.
pub record Multicast {ℓ} (W : Type ℓ) : Type ℓ where
  pub group : Option ℕ
  pub heap : ℕ → List W
  pub next : ℕ

-- What one round of the loop of Add or Remove comes to.
pub data Outcome : Type 0 where
  returned again panicked : Outcome

pub data Call {ℓ} (W : Type ℓ) : Type ℓ where
  add remove : W → Call W

abbrev pub is_at : ℕ → Option ℕ → Bool
is_at p none = false
is_at p (some q) = q == p

module _ {ℓ} {W : Type ℓ} where
  -- The zero value.
  abbrev pub new_multicast : Multicast W
  new_multicast = record { group = none; heap = λ p. []; next = 0 }

  -- *old, and no writers for a nil pointer.
  abbrev pub writers : Option ℕ → Multicast W → List W
  writers none m = []
  writers (some p) m = m.heap p

  abbrev pub members : Multicast W → List W
  members m = writers m.group m

  unfoldable pub num : Multicast W → ℕ
  num m = elim m.group [ none ↦ 0 | some p ↦ length (m.heap p) ]

  -- A store of a pointer to a new slice.
  abbrev pub store : List W → Multicast W → Multicast W
  store ws m = record { group = some m.next; heap = assign m.heap m.next ws; next = m.next + 1 }

  -- m.group.CompareAndSwap(old, &group)
  abbrev pub swap : ℕ → List W → Multicast W → Multicast W × Outcome
  swap p ws m = if is_at p m.group then (store ws m, returned) else (m, again)

module _ {ℓ} {W : Type ℓ} ⦃e : Eq W⦄ where
  -- The loop body of Add after it has loaded `old`. Where old is nil and the swap from nil fails,
  -- *old panics.
  unfoldable pub add_round : W → Option ℕ → Multicast W → Multicast W × Outcome
  add_round w none m = elim m.group [ none ↦ (store (w ∷ []) m, returned) | some q ↦ (m, panicked) ]
  add_round w (some p) m = if contains w (m.heap p) then (m, returned) else swap p (w ∷ m.heap p) m

  -- The loop body of Remove after the load.
  unfoldable pub remove_round : W → Option ℕ → Multicast W → Multicast W × Outcome
  remove_round w none m = (m, returned)
  remove_round w (some p) m =
      if length (m.heap p) == 0
      then (m, returned)
      else if not (contains w (m.heap p))
      then (m, returned)
      else swap p (select (λ v. not (e.beq v w)) (m.heap p)) m

  unfoldable pub round : Call W → Option ℕ → Multicast W → Multicast W × Outcome
  round (add w) old m = add_round w old m
  round (remove w) old m = remove_round w old m

-- Where a goroutine is: outside, before the load of the loop, after it, or dead by a panic.
pub data Pc {ℓ} (W : Type ℓ) : Type ℓ where
  idle : Pc W
  looping : Call W → Pc W
  loaded : Call W → Option ℕ → Pc W
  dead : Pc W

abbrev pub after_round {ℓ} : {W : Type ℓ} → Call W → Outcome → Pc W
after_round c returned = idle
after_round c again = looping c
after_round c panicked = dead

module _ {ℓ} {W : Type ℓ} ⦃e : Eq W⦄ where
  -- One step of one goroutine. A call with a nil writer returns at once and has no step.
  pub data Move (m : Multicast W) : Pc W → Multicast W → Pc W → Type ℓ where
    call : (c : Call W) → Move m idle m (looping c)
    load : {c : Call W} → Move m (looping c) m (loaded c m.group)
    finish :
        {c : Call W} {old : Option ℕ}
        → Move m (loaded c old) (round c old m).0 (after_round c (round c old m).1)

pub record System {ℓ} (W : Type ℓ) : Type ℓ where
  pub threads : List (Pc W)
  pub multicast : Multicast W

abbrev pub all_idle {ℓ} : {W : Type ℓ} → ℕ → List (Pc W)
all_idle zero = []
all_idle (suc n) = idle ∷ all_idle n

module _ {ℓ} {W : Type ℓ} ⦃e : Eq W⦄ where
  pub data Step : System W → System W → Type ℓ where
    step :
        (before after : List (Pc W)) {p p' : Pc W} {m m' : Multicast W}
        → Move m p m' p'
        → Step
            (record { threads = before ++ p ∷ after; multicast = m })
            (record { threads = before ++ p' ∷ after; multicast = m' })

  -- What n goroutines can reach on a zero Multicast.
  pub data Reach (n : ℕ) : System W → Type ℓ where
    start : Reach n (record { threads = all_idle n; multicast = new_multicast })
    later : {s t : System W} → Reach n s → Step s t → Reach n t

-- What a writer does with a Write: the number of bytes it takes, and its error.
abbrev pub Taken : Type 0
Taken = ℕ × Option Error

abbrev pub short_write : Error
short_write = plain (message "short write")

-- wErr, with io.ErrShortWrite for a short write without an error.
abbrev pub write_error : ℕ → Taken → Option Error
write_error size (nn, some failed) = some failed
write_error size (nn, none) = if ltb nn size then some short_write else none

abbrev pub keep_first : Taken → ℕ → Option Error → Taken
keep_first (n, some failed) nn wrote = (n, some failed)
keep_first (n, none) nn none = (n, none)
keep_first (n, none) nn (some failed) = (nn, some failed)

-- n, where nothing failed, is the size of what was written.
abbrev pub whole : ℕ → Taken → Taken
whole size (n, some failed) = (n, some failed)
whole size (n, none) = if n == 0 then (size, none) else (n, none)

-- The loop of Write: the state of each writer after it, n and err.
module _ {ℓ κ} {W : Type ℓ} {S : Type κ} (write_to : W → Text → S → S × Taken) where
  unfoldable pub write_all : List W → Text → Taken → S → S × Taken
  write_all [] p r s = (s, r)
  write_all (w ∷ ws) p r s =
      let (s', taken) = write_to w p s in
      write_all ws p (keep_first r taken.0 (write_error (length p) taken)) s'

  abbrev pub write_group : List W → Text → S → S × Taken
  write_group [] p s = (s, (0, none))
  write_group (w ∷ ws) p s =
      let (s', r) = write_all (w ∷ ws) p (0, none) s in (s', whole (length p) r)

  unfoldable pub write : Text → Multicast W → S → S × Taken
  write p m s = elim m.group [ none ↦ (s, (0, none)) | some q ↦ write_group (m.heap q) p s ]
