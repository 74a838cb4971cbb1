-- ===== src/Cache/Cow.antt =====
-- internal/cache/cow.go. A Cow is its atomic pointer (`none` is nil) and its capacity. The writers
-- hold the mutex from their load to their store, so each is one transition; a reader loads once.
pub mod Views
pub mod Bounds
use kes.Prelude.{
  ℕ, ℤ, length, Eq, Bool, true, false, not, ◌&&◌, Option, none, some, is_some, List, [], ◌∷◌,
  if◌then◌else◌, is_positive, le_ℕ,
}
use kes.Prelude.Maps.{Assoc, lookup, put, erase}

pub record Cow {ℓ κ} (K : Type ℓ) (V : Type κ) : Type (ℓ ⊔ κ) where
  pub ptr : Option (Assoc K V)
  pub capacity : ℤ

-- NewCow stores an empty map; the zero Cow has a nil pointer.
abbrev pub new_cow {ℓ κ} : {K : Type ℓ} {V : Type κ} → ℤ → Cow K V
new_cow capacity = record { ptr = some []; capacity = capacity }

abbrev pub zero_cow {ℓ κ} : {K : Type ℓ} {V : Type κ} → Cow K V
zero_cow = record { ptr = none; capacity = ℤ.pos 0 }

-- c.capacity > 0 && len(r) >= c.capacity
abbrev pub is_full : ℤ → ℕ → Bool
is_full capacity size = is_positive capacity && le_ℕ capacity size

module _ {ℓ κ} {K : Type ℓ} {V : Type κ} ⦃e : Eq K⦄ where
  unfoldable pub get : K → Cow K V → Option V
  get key c = elim c.ptr [ none ↦ none | some m ↦ lookup key m ]

  -- for k, v := range r { w[k] = v }
  unfoldable pub copy : Assoc K V → Assoc K V
  copy [] = []
  copy ((k, v) ∷ r) = put k v (copy r)

  abbrev store : Cow K V → Assoc K V → Cow K V
  store c w = record c { ptr = some w }

  unfoldable pub set : K → V → Cow K V → Cow K V × Bool
  unfolding copy
  set key value c = elim c.ptr [
    | none ↦ (store c ((key, value) ∷ []), true)
    | some r ↦
        if is_full c.capacity (length r) && not (is_some (lookup key r))
        then (c, false)
        else (store c (put key value (copy r)), true)
  ]

  unfoldable pub add : K → V → Cow K V → Cow K V × Bool
  unfolding copy
  add key value c = elim c.ptr [
    | none ↦ (store c ((key, value) ∷ []), true)
    | some r ↦
        if is_full c.capacity (length r)
        then (c, false)
        else if is_some (lookup key r)
        then (c, false)
        else (store c (put key value (copy r)), true)
  ]

  unfoldable pub delete : K → Cow K V → Cow K V × Bool
  unfolding copy
  delete key c = elim c.ptr [
    | none ↦ (c, false)
    | some r ↦ if is_some (lookup key r) then (store c (erase key (copy r)), true) else (c, false)
  ]

  unfoldable pub delete_all : Cow K V → Cow K V
  delete_all c = elim c.ptr [ none ↦ c | some r ↦ store c [] ]

  -- The loop of DeleteFunc. The values may be pointers, so `f` gives what it leaves of the value
  -- too, and whether the entry is to go.
  unfoldable pub keep_copy : (K → V → V × Bool) → Assoc K V → Assoc K V
  keep_copy f [] = []
  keep_copy f ((k, v) ∷ r) =
      let rest = keep_copy f r in if (f k v).1 then rest else put k (f k v).0 rest

  unfoldable pub delete_func : (K → V → V × Bool) → Cow K V → Cow K V
  unfolding keep_copy
  delete_func f c = elim c.ptr [ none ↦ c | some r ↦ store c (keep_copy f r) ]

  unfoldable pub clone : Cow K V → Cow K V
  unfolding copy
  clone c = elim c.ptr [ none ↦ c | some r ↦ store c (copy r) ]

-- keys = append(keys, k) for every entry
unfoldable pub key_list {ℓ κ} : {K : Type ℓ} {V : Type κ} → Assoc K V → List K
key_list [] = []
key_list ((k, v) ∷ m) = k ∷ key_list m

unfoldable pub keys {ℓ κ} : {K : Type ℓ} {V : Type κ} → Cow K V → List K
unfolding key_list
keys c = elim c.ptr [ none ↦ [] | some m ↦ key_list m ]
