-- ===== src/Prelude/Sorting.antt =====
-- slices.Sort on strings.
use kes.Prelude.Tests.{if◌then◌else◌}
use kes.Prelude.Lists.{All}
use kes.Prelude.Strings.{Text, text_leb, text_leb-total, text_leb_trans, text_leb_antisymm}
use mathlib.Core.Path.{◌≡◌, refl, ap, sym, ◌∙◌}
use mathlib.Core.Bool.{true}
use mathlib.Core.List.{List, [], ◌∷◌, Perm, foldr}
use mathlib.Core.List.Perm
use native.Mathlib.Omega.{arith}

unfoldable pub insert : Text → List Text → List Text
insert x [] = x ∷ []
insert x (y ∷ ys) = if text_leb x y then x ∷ y ∷ ys else y ∷ insert x ys

unfoldable pub sort : List Text → List Text
unfolding insert
sort [] = []
sort (x ∷ xs) = insert x (sort xs)

-- Each element is at most every later one.
abbrev pub Ascending : List Text → Type 0
Ascending [] = Unit
Ascending (x ∷ xs) = All (λ y. text_leb x y ≡ true) xs × Ascending xs

All-le_trans :
    (x y : Text) (ys : List Text)
    → text_leb x y ≡ true
    → All (λ z. text_leb y z ≡ true) ys
    → All (λ z. text_leb x z ≡ true) ys
All-le_trans x y [] h a = tt
All-le_trans x y (z ∷ ys) h a = (text_leb_trans x y z h a.0, All-le_trans x y ys h a.1)

All-insert {ℓ} :
    (P : Text → Type ℓ) (x : Text) (ys : List Text) → P x → All P ys → All P (insert x ys)
unfolding insert
All-insert P x [] h a = (h, a)
All-insert P x (y ∷ ys) h a = ground (arith, All-insert P x ys h a.1)

insert-Ascending : (x : Text) (ys : List Text) → Ascending ys → Ascending (insert x ys)
unfolding insert
insert-Ascending x [] a = (tt, tt)
insert-Ascending x (y ∷ ys) a = ground (
  arith,
  text_leb-total x y,
  All-le_trans x y ys,
  insert-Ascending x ys a.1,
  All-insert (λ z. text_leb y z ≡ true) x ys,
)

pub sort-Ascending : (xs : List Text) → Ascending (sort xs)
unfolding sort
sort-Ascending [] = tt
sort-Ascending (x ∷ xs) = insert-Ascending x (sort xs) (sort-Ascending xs)

insert-perm : (x : Text) (ys : List Text) → Perm (insert x ys) (x ∷ ys)
unfolding insert
insert-perm x [] = Perm.refl (x ∷ [])
insert-perm x (y ∷ ys) =
    ground (
      arith,
      Perm.refl (x ∷ y ∷ ys),
      Perm.trans (Perm.cons y (insert-perm x ys)) (Perm.swap x y ys),
    )

pub sort-perm : (xs : List Text) → Perm (sort xs) xs
unfolding sort
sort-perm [] = Perm.refl []
sort-perm (x ∷ xs) = Perm.trans (insert-perm x (sort xs)) (Perm.cons x (sort-perm xs))

insert_comm : (x y : Text) (zs : List Text) → insert x (insert y zs) ≡ insert y (insert x zs)
unfolding insert
insert_comm x y [] = ground (arith, text_leb_antisymm x y, text_leb-total x y)
insert_comm x y (z ∷ zs) = ground (
  arith,
  insert_comm x y zs,
  text_leb_antisymm x y,
  text_leb-total x y,
  text_leb-total y z,
  text_leb-total x z,
  text_leb_trans x y z,
  text_leb_trans y x z,
  text_leb_trans x z y,
  text_leb_trans y z x,
)

sort-foldr : (xs : List Text) → sort xs ≡ foldr insert [] xs
unfolding sort
sort-foldr [] = refl
sort-foldr (x ∷ xs) = ap (insert x) (sort-foldr xs)

texts_set : IsSet (List Text)
texts_set = hlevel

-- Sorting forgets the order.
pub sort-Perm : {xs ys : List Text} → Perm xs ys → sort xs ≡ sort ys
sort-Perm {xs} {ys} p =
    sort-foldr xs ∙ Perm.foldr-eq texts_set insert insert_comm p [] ∙ sym (sort-foldr ys)
