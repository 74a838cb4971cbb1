-- ===== src/Cache/Cow/Views.antt =====
-- What each operation of a Cow does to the finite map that `get` shows.
use kes.Prelude.{
  ℕ, length, Eq, ◌≡◌, refl, Bool, false, not, ◌&&◌, Option, Option-cases, inl, inr, none, some,
  is_some, [], ◌∷◌, if◌then◌else◌, arith,
}
use kes.Prelude.Maps.{contains, Assoc, lookup, Distinct, lookup-put, lookup-erase}
use kes.Cache.Cow.{
  Cow, is_full, get, copy, set, add, delete, delete_all, keep_copy, delete_func, clone, key_list,
  keys,
}

-- The number of entries, and whether the capacity is reached.
abbrev pub size {ℓ κ} : {K : Type ℓ} {V : Type κ} → Cow K V → ℕ
size c = elim c.ptr [ none ↦ 0 | some m ↦ length m ]

abbrev pub at_capacity {ℓ κ} : {K : Type ℓ} {V : Type κ} → Cow K V → Bool
at_capacity c = elim c.ptr [ none ↦ false | some m ↦ is_full c.capacity (length m) ]

-- No key is entered twice, as in every Go map.
abbrev pub KeysDistinct {ℓ κ} : {K : Type ℓ} {V : Type κ} ⦃e : Eq K⦄ → Cow K V → Type κ
KeysDistinct c = elim c.ptr [ none ↦ Unit | some m ↦ Distinct m ]

-- What is left of an entry under DeleteFunc.
abbrev pub kept {ℓ κ} : {K : Type ℓ} {V : Type κ} → (K → V → V × Bool) → K → Option V → Option V
kept f k none = none
kept f k (some v) = if (f k v).1 then none else some (f k v).0

module _ {ℓ κ} {K : Type ℓ} {V : Type κ} ⦃e : Eq K⦄ where
  pub lookup-copy : (j : K) (m : Assoc K V) → lookup j (copy m) ≡ lookup j m
  unfolding lookup copy
  lookup-copy j [] = refl
  lookup-copy j ((k, v) ∷ m) = ground (arith, lookup-put k j v (copy m), lookup-copy j m)

  -- Set reports false exactly when a new key meets a full Cow. If it reports true, the key has the
  -- value; all other keys, and every key if it reports false, show what they showed.
  pub get-set :
      (k j : K) (v : V) (c : Cow K V)
      → ((set k v c).1 ≡ not (at_capacity c && not (is_some (get k c))))
        × (get j (set k v c).0 ≡ (if (set k v c).1 && e.beq k j then some v else get j c))
  unfolding get set lookup
  get-set k j v c = elim (Option-cases c.ptr) [
    | inl p ↦ ground arith
    | inr (r, p) ↦ ground (arith, lookup-copy j r, lookup-put k j v (copy r))
  ]

  -- No operation changes the capacity.
  pub capacity-set : (k : K) (v : V) (c : Cow K V) → (set k v c).0.capacity ≡ c.capacity
  unfolding set
  capacity-set k v c = ground arith

  pub capacity-add : (k : K) (v : V) (c : Cow K V) → (add k v c).0.capacity ≡ c.capacity
  unfolding add
  capacity-add k v c = ground arith

  pub capacity-delete_all : (c : Cow K V) → (delete_all c).capacity ≡ c.capacity
  unfolding delete_all
  capacity-delete_all c = ground arith

  pub capacity-delete_func :
      (f : K → V → V × Bool) (c : Cow K V) → (delete_func f c).capacity ≡ c.capacity
  unfolding delete_func
  capacity-delete_func f c = ground arith

  pub capacity-delete : (k : K) (c : Cow K V) → (delete k c).0.capacity ≡ c.capacity
  unfolding delete
  capacity-delete k c = ground arith

  -- Add reports true exactly when the Cow has room and the key is new. If it reports true, the key
  -- has the value; all other keys, and every key if it reports false, show what they showed.
  pub get-add :
      (k j : K) (v : V) (c : Cow K V)
      → ((add k v c).1 ≡ (not (at_capacity c) && not (is_some (get k c))))
        × (get j (add k v c).0 ≡ (if (add k v c).1 && e.beq k j then some v else get j c))
  unfolding get add lookup
  get-add k j v c = elim (Option-cases c.ptr) [
    | inl p ↦ ground arith
    | inr (r, p) ↦ ground (arith, lookup-copy j r, lookup-put k j v (copy r))
  ]

  -- Delete reports whether the key was there, removes it, and leaves all other keys as they were.
  pub get-delete :
      (k j : K) (c : Cow K V)
      → ((delete k c).1 ≡ is_some (get k c))
        × (get j (delete k c).0 ≡ (if e.beq k j then none else get j c))
  unfolding get delete
  get-delete k j c = elim (Option-cases c.ptr) [
    | inl p ↦ ground arith
    | inr (r, p) ↦ ground (arith, e.beq_iff k j, lookup-copy j r, lookup-erase k j (copy r))
  ]

  pub get-delete_all : (j : K) (c : Cow K V) → get j (delete_all c) ≡ none
  unfolding get delete_all lookup
  get-delete_all j c = ground arith

  lookup-keep_copy :
      (f : K → V → V × Bool) (j : K) (m : Assoc K V)
      → Distinct m
      → lookup j (keep_copy f m) ≡ kept f j (lookup j m)
  unfolding lookup keep_copy
  lookup-keep_copy f j [] d = refl
  lookup-keep_copy f j ((k, v) ∷ m) d =
      ground
        (arith, e.beq_iff k j, lookup-put k j (f k v).0 (keep_copy f m), lookup-keep_copy f j m d.1)

  -- Every entry of a Cow with distinct keys goes or stays as `f` says of it.
  pub get-delete_func :
      (f : K → V → V × Bool) (j : K) (c : Cow K V)
      → KeysDistinct c
      → get j (delete_func f c) ≡ kept f j (get j c)
  unfolding get delete_func
  get-delete_func f j c d = elim (Option-cases c.ptr) [
    | inl p ↦ ground arith
    | inr (r, p) ↦ ground (arith, lookup-keep_copy f j r)
  ]

  -- A clone shows what the Cow shows.
  pub get-clone : (j : K) (c : Cow K V) → get j (clone c) ≡ get j c
  unfolding get clone
  get-clone j c = elim (Option-cases c.ptr) [
    | inl p ↦ ground arith
    | inr (r, p) ↦ ground (arith, lookup-copy j r)
  ]

  contains-key_list : (j : K) (m : Assoc K V) → contains j (key_list m) ≡ is_some (lookup j m)
  unfolding lookup key_list
  contains-key_list j [] = refl
  contains-key_list j ((k, v) ∷ m) = ground (arith, contains-key_list j m)

  -- Keys lists exactly the keys that Get finds.
  pub contains-keys : (j : K) (c : Cow K V) → contains j (keys c) ≡ is_some (get j c)
  unfolding get keys
  contains-keys j c = elim (Option-cases c.ptr) [
    | inl p ↦ ground arith
    | inr (r, p) ↦ ground (arith, contains-key_list j r)
  ]
