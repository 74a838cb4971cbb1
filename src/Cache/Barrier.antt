-- ===== src/Cache/Barrier.antt =====
-- internal/cache/barrier.go: a mutex per key, and the uses of keys: a use is a call of Lock and the
-- call of Unlock for it. It belongs to no goroutine: the goroutine that unlocks may be another one,
-- and a goroutine may have several uses in progress, also of different keys. Each step is atomic:
-- `add` and `remove` hold the mutex `mu` of the Barrier from start to end, so no step of another call
-- that needs `mu` comes between. An Unlock without a Lock that has returned is not modelled, but for
-- the panic of `remove`.
pub mod Counts
pub mod Invariant
pub mod Uses
pub mod Moves
pub mod Safety
use kes.Prelude.{
  ℕ, zero, suc, ◌+◌, ◌-◌, ◌%◌, ◌^◌, ◌≡◌, Bool, true, false, not, Option, none, some, List, [], ◌∷◌,
  ◌++◌, map, arith, ◌==◌, if◌then◌else◌, Eq, text_eq,
}
use kes.Prelude.Maps.{Assoc, lookup, put, erase}

-- type barrier: the embedded sync.Mutex and N, a uint.
pub record KeyLock : Type 0 where
  pub locked : Bool
  pub n : ℕ

-- The map `keys`, whose values are pointers, and what they point to. Pointers from `next` on are
-- not in use; a nil map is one with no entries.
pub record Barrier {ℓ} (K : Type ℓ) : Type ℓ where
  pub keys : Assoc K ℕ
  pub heap : ℕ → KeyLock
  pub next : ℕ

abbrev pub zero_lock : KeyLock
zero_lock = record { locked = false; n = 0 }

-- The zero value of a Barrier.
abbrev pub new_barrier {ℓ} : {K : Type ℓ} → Barrier K
new_barrier = record { keys = []; heap = λ m. zero_lock; next = 0 }

-- Numbers of type uint wrap around.
abbrev pub uint : ℕ → ℕ
uint n = n % 2 ^ 64

abbrev pub decrement : ℕ → ℕ
decrement n = uint (n + (2 ^ 64 - 1))

abbrev pub assign {ℓ} : {A : Type ℓ} → (ℕ → A) → ℕ → A → ℕ → A
assign f m a i = if m == i then a else f i

module _ {ℓ} {K : Type ℓ} where
  abbrev pub store_lock : ℕ → KeyLock → Barrier K → Barrier K
  store_lock m l b = record b { heap = assign b.heap m l }

  -- The Lock and the Unlock of sync.Mutex, where they do not wait.
  abbrev pub set_locked : ℕ → Bool → Barrier K → Barrier K
  set_locked m locked b = store_lock m (record (b.heap m) { locked = locked }) b

module _ {ℓ} {K : Type ℓ} ⦃e : Eq K⦄ where
  -- m.N++
  abbrev pub count_up : ℕ → Barrier K → Barrier K
  count_up m b = store_lock m (record (b.heap m) { n = uint ((b.heap m).n + 1) }) b

  -- m = new(barrier); b.keys[key] = m
  abbrev pub new_lock : K → Barrier K → Barrier K
  new_lock key b = record {
    keys = put key b.next b.keys;
    heap = assign b.heap b.next zero_lock;
    next = b.next + 1;
  }

  unfoldable pub add : K → Barrier K → Barrier K × ℕ
  add key b = elim (lookup key b.keys) [
    | none ↦ (count_up b.next (new_lock key b), b.next)
    | some m ↦ (count_up m b, m)
  ]

  -- m.N--
  abbrev pub lower : ℕ → Barrier K → Barrier K
  lower m b = store_lock m (record (b.heap m) { n = decrement (b.heap m).n }) b

  abbrev pub forget : K → Barrier K → Barrier K
  forget key b = record b { keys = erase key b.keys }

  unfoldable pub count_down : K → ℕ → Barrier K → Barrier K
  count_down key m b = let c = lower m b in if (c.heap m).n == 0 then forget key c else c

  -- `none` is the panic "cache: unlock of unlocked Barrier key".
  unfoldable pub remove : K → Barrier K → Option (Barrier K × ℕ)
  remove key b = elim (lookup key b.keys) [ none ↦ none | some m ↦ some (count_down key m b, m) ]

-- Where a use is: not in progress, in Lock before the mutex of the pointer is locked, between the
-- return of Lock and the call of Unlock, or in Unlock before the mutex is unlocked.
pub data KeyUse {ℓ} (K : Type ℓ) : Type ℓ where
  outside : KeyUse K
  waiting : K → ℕ → KeyUse K
  holding : K → ℕ → KeyUse K
  releasing : ℕ → KeyUse K

abbrev pub all_outside {ℓ} : {K : Type ℓ} → ℕ → List (KeyUse K)
all_outside zero = []
all_outside (suc n) = outside ∷ all_outside n

-- The uses, any number of them at once, and the Barrier that they share.
pub record System {ℓ} (K : Type ℓ) : Type ℓ where
  pub calls : List (KeyUse K)
  pub barrier : Barrier K

module _ {ℓ} {K : Type ℓ} ⦃e : Eq K⦄ where
  -- One atomic step of one use, made by whichever goroutine makes the call.
  pub data Move (b : Barrier K) : KeyUse K → Barrier K → KeyUse K → Type ℓ where
    call_lock : (key : K) → Move b outside (add key b).0 (waiting key (add key b).1)
    acquire :
        {key : K} {m : ℕ}
        → (b.heap m).locked ≡ false
        → Move b (waiting key m) (set_locked m true b) (holding key m)
    call_unlock :
        {key : K} {m m' : ℕ} {b' : Barrier K}
        → remove key b ≡ some (b', m')
        → Move b (holding key m) b' (releasing m')
    release : {m : ℕ} → Move b (releasing m) (set_locked m false b) outside

  pub data Step : System K → System K → Type ℓ where
    step :
        (before after : List (KeyUse K)) {p p' : KeyUse K} {b b' : Barrier K}
        → Move b p b' p'
        → Step
            (record { calls = before ++ p ∷ after; barrier = b })
            (record { calls = before ++ p' ∷ after; barrier = b' })

  -- What can be reached on a zero Barrier with at most n uses in progress at once.
  pub data Reach (n : ℕ) : System K → Type ℓ where
    start : Reach n (record { calls = all_outside n; barrier = new_barrier })
    later : {s t : System K} → Reach n s → Step s t → Reach n t
