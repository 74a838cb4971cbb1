-- ===== src/Cache/Barrier/Counts.antt =====
-- Uses of keys counted in a list, whatever their order.
use kes.Prelude.{
  ℕ, ◌+◌, ◌≤◌, ◌≡◌, refl, List, [], ◌∷◌, ◌++◌, arith, length, All, ltb, Bool-cases, inl, inr,
  ltb→lt, ap,
}

module _ {ℓ} {A : Type ℓ} where
  unfoldable pub total : (A → ℕ) → List A → ℕ
  total f [] = 0
  total f (x ∷ xs) = f x + total f xs

  pub total-append_middle :
      (f : A → ℕ) (xs : List A) (y : A) (zs : List A)
      → total f (xs ++ y ∷ zs) ≡ total f (y ∷ xs ++ zs)
  unfolding total
  total-append_middle f [] y zs = refl
  total-append_middle f (x ∷ xs) y zs = omega (arith, total-append_middle f xs y zs)

  pub total-length : (f : A → ℕ) → ((x : A) → f x ≤ 1) → (xs : List A) → total f xs ≤ length xs
  unfolding total
  total-length f h [] = omega arith
  total-length f h (x ∷ xs) = omega (arith, h x, total-length f h xs)

  pub total-none :
      (f : A → ℕ) (P : A → Type 0)
      → ((x : A) → P x → f x ≡ 0)
      → (xs : List A) → All P xs
      → total f xs ≡ 0
  unfolding total
  total-none f P h [] a = refl
  total-none f P h (x ∷ xs) a = omega (arith, h x a.0, total-none f P h xs a.1)

  pub total-le :
      (f g : A → ℕ) (P : A → Type 0)
      → ((x : A) → P x → f x ≤ g x)
      → (xs : List A) → All P xs
      → total f xs ≤ total g xs
  unfolding total
  total-le f g P h [] a = omega arith
  total-le f g P h (x ∷ xs) a = omega (arith, h x a.0, total-le f g P h xs a.1)

  -- Where the count is not 0, an element counts.
  pub total-positive :
      (f : A → ℕ) (xs : List A)
      → 1 ≤ total f xs
      → (before : List A) × (y : A) × (after : List A) × ((xs ≡ before ++ y ∷ after) × (1 ≤ f y))
  unfolding total
  total-positive f [] h = absurd (omega arith)
  total-positive f (x ∷ xs) h = elim (Bool-cases (ltb 0 (f x))) [
    | inl h' ↦ ([], x, xs, (refl, ltb→lt 0 (f x) h'))
    | inr h' ↦
        let (before, y, after, (e, l)) = total-positive f xs (ground arith) in
        (x ∷ before, y, after, (ap (◌∷◌ x) e, l))
  ]

  pub length-append_middle :
      (xs : List A) (y : A) (zs : List A) → length (xs ++ y ∷ zs) ≡ length (y ∷ xs ++ zs)
  length-append_middle [] y zs = refl
  length-append_middle (x ∷ xs) y zs = omega (arith, length-append_middle xs y zs)

  module _ {κ} (P : A → Type κ) where
    pub All-to_front :
        (xs : List A) (y : A) (zs : List A) → All P (xs ++ y ∷ zs) → All P (y ∷ xs ++ zs)
    All-to_front [] y zs a = a
    All-to_front (x ∷ xs) y zs a = let rest = All-to_front xs y zs a.1 in (rest.0, (a.0, rest.1))

    pub All-to_middle :
        (xs : List A) (y : A) (zs : List A) → All P (y ∷ xs ++ zs) → All P (xs ++ y ∷ zs)
    All-to_middle [] y zs a = a
    All-to_middle (x ∷ xs) y zs a = (a.1.0, All-to_middle xs y zs (a.0, a.1.1))

    pub All-implied : (Q : A → Type κ) → ((x : A) → P x → Q x) → (xs : List A) → All P xs → All Q xs
    All-implied Q h [] a = tt
    All-implied Q h (x ∷ xs) a = (h x a.0, All-implied Q h xs a.1)

    -- A fact on every element that is not counted.
    pub All-uncounted :
        (f : A → ℕ) (Q : A → Type κ)
        → ((x : A) → f x ≡ 0 → P x → Q x)
        → (xs : List A) → total f xs ≡ 0
        → All P xs
        → All Q xs
    unfolding total
    All-uncounted f Q h [] z a = tt
    All-uncounted f Q h (x ∷ xs) z a =
        (h x (omega arith) a.0, All-uncounted f Q h xs (omega arith) a.1)
