-- ===== src/Cache/Cow/Bounds.antt =====
-- The invariant of a Cow (internal/cache/cow.go) and its writers.
use kes.Prelude.{
  ℤ, ◌≤◌, length, Eq, ◌≡◌, refl, Bool, true, false, Option-cases, some, is_some, List, [], ◌∷◌,
  arith, inl, inr, ◌⊎◌, is_positive, to_ℕ,
}
use kes.Prelude.Maps.{
  Assoc, lookup, put, Distinct, put-Distinct, erase-Distinct, length-put, length-erase,
}
use kes.Cache.Cow.{
  Cow, new_cow, is_full, copy, set, add, delete, delete_all, keep_copy, delete_func, clone,
}
use kes.Cache.Cow.Views.{size, KeysDistinct, lookup-copy}

module _ {ℓ κ} {K : Type ℓ} {V : Type κ} ⦃e : Eq K⦄ where
  pub record IsValid (c : Cow K V) : Type κ where
    pub distinct : KeysDistinct c
    pub bounded : is_positive c.capacity ≡ true → size c ≤ to_ℕ c.capacity

  copy-Distinct : (m : Assoc K V) → Distinct m → Distinct (copy m)
  unfolding copy
  copy-Distinct [] d = d
  copy-Distinct ((k, v) ∷ m) d = put-Distinct k v (copy m) (copy-Distinct m d.1)

  length-copy : (m : Assoc K V) → Distinct m → length (copy m) ≡ length m
  unfolding copy
  length-copy [] d = refl
  length-copy ((k, v) ∷ m) d =
      ground (arith, length-put k v (copy m), lookup-copy k m, length-copy m d.1)

  keep_copy-Distinct :
      (f : K → V → V × Bool) (m : Assoc K V) → Distinct m → Distinct (keep_copy f m)
  unfolding keep_copy
  keep_copy-Distinct f [] d = d
  keep_copy-Distinct f ((k, v) ∷ m) d =
      ground (arith, keep_copy-Distinct f m d.1, put-Distinct k (f k v).0 (keep_copy f m))

  length-keep_copy : (f : K → V → V × Bool) (m : Assoc K V) → length (keep_copy f m) ≤ length m
  unfolding keep_copy
  length-keep_copy f [] = omega arith
  length-keep_copy f ((k, v) ∷ m) =
      ground (arith, length-put k (f k v).0 (keep_copy f m), length-keep_copy f m)

  put-copy-IsValid :
      (k : K) (v : V) (c : Cow K V) (r : Assoc K V)
      → c.ptr ≡ some r
      → (is_full c.capacity (length r) ≡ false) ⊎ (is_some (lookup k r) ≡ true)
      → IsValid c
      → IsValid (record c { ptr = some (put k v (copy r)) })
  put-copy-IsValid k v c r p room h = record {
    distinct = ground (arith, put-Distinct k v (copy r), copy-Distinct r);
    bounded = λ q. ground (arith, length-put k v (copy r), lookup-copy k r, length-copy r);
  }

  pub set-IsValid : (k : K) (v : V) (c : Cow K V) → IsValid c → IsValid (set k v c).0
  unfolding set lookup
  set-IsValid k v c h = elim (Option-cases c.ptr) [
    | inl p ↦ record { distinct = ground arith; bounded = ground arith }
    | inr (r, p) ↦ ground (arith, put-copy-IsValid k v c r p)
  ]

  pub add-IsValid : (k : K) (v : V) (c : Cow K V) → IsValid c → IsValid (add k v c).0
  unfolding add lookup
  add-IsValid k v c h = elim (Option-cases c.ptr) [
    | inl p ↦ record { distinct = ground arith; bounded = ground arith }
    | inr (r, p) ↦ ground (arith, put-copy-IsValid k v c r p)
  ]

  pub delete-IsValid : (k : K) (c : Cow K V) → IsValid c → IsValid (delete k c).0
  unfolding delete
  delete-IsValid k c h = elim (Option-cases c.ptr) [
    | inl p ↦ ground arith
    | inr (r, p) ↦ record {
      distinct = ground (arith, erase-Distinct k (copy r), copy-Distinct r);
      bounded = λ q. ground (arith, length-erase k (copy r), length-copy r);
    }
  ]

  pub delete_all-IsValid : (c : Cow K V) → IsValid c → IsValid (delete_all c)
  unfolding delete_all
  delete_all-IsValid c h = record { distinct = ground arith; bounded = λ q. ground arith }

  pub delete_func-IsValid :
      (f : K → V → V × Bool) (c : Cow K V) → IsValid c → IsValid (delete_func f c)
  unfolding delete_func
  delete_func-IsValid f c h = elim (Option-cases c.ptr) [
    | inl p ↦ ground arith
    | inr (r, p) ↦ record {
      distinct = ground (arith, keep_copy-Distinct f r);
      bounded = λ q. ground (arith, length-keep_copy f r);
    }
  ]

  clone-IsValid : (c : Cow K V) → IsValid c → IsValid (clone c)
  unfolding clone
  clone-IsValid c h = elim (Option-cases c.ptr) [
    | inl p ↦ ground arith
    | inr (r, p) ↦ record {
      distinct = ground (arith, copy-Distinct r);
      bounded = λ q. ground (arith, length-copy r);
    }
  ]

-- The writers of a Cow, in the order in which they take the mutex.
pub data Op {ℓ κ} (K : Type ℓ) (V : Type κ) : Type (ℓ ⊔ κ) where
  set_op add_op : K → V → Op K V
  delete_op : K → Op K V
  delete_all_op : Op K V
  delete_func_op : (K → V → V × Bool) → Op K V

module _ {ℓ κ} {K : Type ℓ} {V : Type κ} ⦃e : Eq K⦄ where
  pub step : Cow K V → Op K V → Cow K V
  step c (set_op k v) = (set k v c).0
  step c (add_op k v) = (add k v c).0
  step c (delete_op k) = (delete k c).0
  step c delete_all_op = delete_all c
  step c (delete_func_op f) = delete_func f c

  pub run : Cow K V → List (Op K V) → Cow K V
  run c [] = c
  run c (o ∷ os) = run (step c o) os

  step-IsValid : (c : Cow K V) (o : Op K V) → IsValid c → IsValid (step c o)
  unfolding step
  step-IsValid c (set_op k v) h = set-IsValid k v c h
  step-IsValid c (add_op k v) h = add-IsValid k v c h
  step-IsValid c (delete_op k) h = delete-IsValid k c h
  step-IsValid c delete_all_op h = delete_all-IsValid c h
  step-IsValid c (delete_func_op f) h = delete_func-IsValid f c h

  -- From a valid Cow, whatever the writers do in whatever order, the keys stay distinct, and with a
  -- positive capacity there are never more entries than that.
  pub run-IsValid : (c : Cow K V) (os : List (Op K V)) → IsValid c → IsValid (run c os)
  unfolding run
  run-IsValid c [] h = h
  run-IsValid c (o ∷ os) h = run-IsValid (step c o) os (step-IsValid c o h)

  pub new_cow-IsValid : (capacity : ℤ) → IsValid (new_cow {K = K} {V = V} capacity)
  new_cow-IsValid capacity = record { distinct = tt; bounded = λ q. omega arith }
