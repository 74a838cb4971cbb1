-- ===== src/KeyStore/Pages.antt =====
-- What the two listing functions share: slices.IndexFunc, indexing, and the pages of a listing.
use kes.Prelude.{
  ℕ, zero, suc, ◌≤◌, ◌≡◌, refl, ap, inl, inr, Bool, true, false, Option, none, some, List, [], ◌∷◌,
  ◌++◌, arith, if◌then◌else◌, Bool-cases, length, get_elem?, take, drop, select, All, Text, text_eq,
  has_prefix, has_prefix-between, text_leb,
}
use kes.Prelude.Sorting.{Ascending}

-- slices.IndexFunc; `none` is -1.
unfoldable pub index_func {ℓ} : {A : Type ℓ} → (A → Bool) → List A → Option ℕ
index_func p [] = none
index_func p (x ∷ xs) =
    let rest = index_func p xs in
    if p x then some 0 else (elim rest [ none ↦ none | some i ↦ some (suc i) ])

-- names[i], where the index has been checked.
abbrev pub text_at : List Text → ℕ → Text
text_at names i = elim (get_elem? names i) [ none ↦ [] | some name ↦ name ]

-- Either nothing matches, or the list from the index on begins with the first match.
abbrev pub FirstMatch {ℓ} : {A : Type ℓ} → (A → Bool) → List A → Option ℕ → Type ℓ
FirstMatch {A = A} p xs none = select p xs ≡ []
FirstMatch {A = A} p xs (some i) =
    (y : A) × (ys : List A) × (drop i xs ≡ y ∷ ys) × (p y ≡ true) × (select p xs ≡ y ∷ select p ys)

FirstMatch-later {ℓ} :
    {A : Type ℓ} (p : A → Bool) (x : A) (xs : List A) (o : Option ℕ)
    → p x ≡ false
    → FirstMatch p xs o
    → FirstMatch p (x ∷ xs) (elim o [ none ↦ none | some i ↦ some (suc i) ])
FirstMatch-later p x xs none h m = rw h m
FirstMatch-later p x xs (some i) h (y, ys, d, t, s) = (y, ys, d, t, rw h s)

pub index_func-FirstMatch {ℓ} :
    {A : Type ℓ} (p : A → Bool) (xs : List A) → FirstMatch p xs (index_func p xs)
unfolding index_func
index_func-FirstMatch p [] = refl
index_func-FirstMatch p (x ∷ xs) = elim (Bool-cases (p x)) [
  | inl h ↦ rw h (x, xs, refl, h, rw h)
  | inr h ↦ rw h (FirstMatch-later p x xs (index_func p xs) h (index_func-FirstMatch p xs))
]

-- Once a name without the prefix is met, no later name has it.
abbrev pub Block : Text → List Text → Type 0
Block p [] = Unit
Block p (x ∷ xs) = (has_prefix p x ≡ false → select (has_prefix p) xs ≡ []) × Block p xs

none_later :
    (p x y : Text) (zs : List Text)
    → has_prefix p x ≡ true
    → has_prefix p y ≡ false
    → text_leb x y ≡ true
    → All (λ z. text_leb y z ≡ true) zs
    → select (has_prefix p) zs ≡ []
none_later p x y [] hx hy xy a = refl
none_later p x y (z ∷ zs) hx hy xy a =
    ground (arith, has_prefix-between p x y z, none_later p x y zs)

-- In ascending names that begin with a match, the matches stand together at the front.
pub Ascending-Block :
    (p x : Text) (ys : List Text) → has_prefix p x ≡ true → Ascending (x ∷ ys) → Block p ys
Ascending-Block p x [] hx a = tt
Ascending-Block p x (y ∷ ys) hx a =
    (λ hy. none_later p x y ys hx hy a.0.0 a.1.0, Ascending-Block p x ys hx (a.0.1, a.1.1))

pub drop-Ascending : (i : ℕ) (xs : List Text) → Ascending xs → Ascending (drop i xs)
drop-Ascending zero xs a = a
drop-Ascending (suc i) [] a = a
drop-Ascending (suc i) (x ∷ xs) a = drop-Ascending i xs a.1

pub take-append : (xs ys : List Text) → take (length xs) (xs ++ ys) ≡ xs
take-append [] ys = refl
take-append (x ∷ xs) ys = ap (◌∷◌ x) (take-append xs ys)

pub text_at-append : (xs ys : List Text) (y : Text) → text_at (xs ++ y ∷ ys) (length xs) ≡ y
text_at-append [] ys y = refl
text_at-append (x ∷ xs) ys y = text_at-append xs ys y

pub text_at-length : (n : ℕ) (xs : List Text) → length xs ≤ n → text_at xs n ≡ []
text_at-length n [] h = refl
text_at-length zero (x ∷ xs) h = absurd (omega arith)
text_at-length (suc n) (x ∷ xs) h = text_at-length n xs (omega arith)
