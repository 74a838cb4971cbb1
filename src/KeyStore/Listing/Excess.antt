-- ===== src/KeyStore/Listing/Excess.antt =====
-- The number of names that List of internal/keystore returns.
use kes.Prelude.{
  ℕ, suc, ◌+◌, ◌-◌, ◌≤◌, ◌<◌, ◌≡◌, refl, sym, ap, ◌∙◌, inl, inr, true, false, Option, none, some,
  List, [], ◌∷◌, ◌++◌, arith, leb, ◌==◌, Bool-cases, ℤ, pos, length, length-append, length-take,
  select-length-le, take, select, Text, text_eq, has_prefix,
}
use mathlib.Core.List.{append_assoc}
use native.Mathlib.Numerals.{add-one}
use kes.Prelude.Sorting.{sort, sort-Ascending, Ascending}
use kes.KeyStore.Pages.{
  index_func, FirstMatch, index_func-FirstMatch, Block, Ascending-Block, drop-Ascending, text_at,
}
use kes.KeyStore.Listing.{page_ends, scan, from_first, list_from, list_sorted, list}

before_end : (m i : ℕ) → i ≤ m → m < 1023 → page_ends (pos m) i ≡ false
unfolding page_ends
before_end m i h b = ground arith

at_end : (m : ℕ) → 0 < m → page_ends (pos m) (suc m) ≡ true
unfolding page_ends
at_end m h = ground arith

length_snoc : (xs : List Text) (x : Text) → length (xs ++ x ∷ []) ≡ suc (length xs)
length_snoc xs x = omega (arith, length-append xs (x ∷ []))

over_last :
    (p : Text) (m : ℕ) (all done rest : List Text) (name : Text)
    → 0 < m
    → all ≡ done ++ name ∷ rest
    → has_prefix p name ≡ true
    → length done ≡ m + 1
    → m + 3 ≤ length done + suc (length (select (has_prefix p) rest))
    → scan p (pos m) all (length done) (name ∷ rest) ≡ some (take (m + 1) all, text_at all (m + 1))
unfolding scan
over_last p m all done rest name h e hit l c =
    let inside : (length done == length all - 1) ≡ false = ground (
      arith,
      ap length e,
      length-append done (name ∷ rest),
      select-length-le (has_prefix p) rest,
    ) in
    let stop : page_ends (pos m) (length done) ≡ true = rw l (rw add-one (at_end m h)) in
    rw (hit, stop, inside, l)

over :
    (p : Text) (m : ℕ) (all done rest : List Text)
    → 0 < m
    → m < 1023
    → all ≡ done ++ rest
    → Block p rest
    → length done ≤ m + 1
    → m + 3 ≤ length done + length (select (has_prefix p) rest)
    → scan p (pos m) all (length done) rest ≡ some (take (m + 1) all, text_at all (m + 1))
unfolding scan
over p m all done [] h b e bl l c = absurd (omega arith)
over p m all done (name ∷ rest) h b e bl l c = elim (Bool-cases (has_prefix p name)) [
  | inr miss ↦ absurd (ground (arith, bl.0 miss))
  | inl hit ↦ elim (Bool-cases (leb (length done) m)) [
    | inl more ↦
        rw (hit, before_end m (length done) (ground arith) b, ← length_snoc done name)
          (over p m all (done ++ name ∷ []) rest h b (e ∙ sym (append_assoc done (name ∷ []) rest))
            bl.1 (ground (arith, length_snoc done name))
            (omega (arith, length_snoc done name, rw hit at c)))
    | inr last ↦ over_last p m all done rest name h e hit (ground arith) (rw hit at c)
  ]
]

from_first-scan :
    (p : Text) (n : ℤ) (names : List Text) (page : List Text × Text)
    → scan p n names 0 names ≡ some page
    → from_first p n names ≡ page
unfolding from_first
from_first-scan p n names page e = rw (e, from_first)

first_excess :
    (p y : Text) (m : ℕ) (ys : List Text)
    → 0 < m
    → m < 1023
    → has_prefix p y ≡ true
    → m + 3 ≤ suc (length (select (has_prefix p) ys))
    → Ascending (y ∷ ys)
    → length (from_first p (pos m) (y ∷ ys)).0 ≡ m + 1
first_excess p y m ys h b hit c a =
    let e : scan p (pos m) (y ∷ ys) 0 (y ∷ ys)
        ≡ some (take (m + 1) (y ∷ ys), text_at (y ∷ ys) (m + 1)) =
      over p m (y ∷ ys) [] (y ∷ ys) h b refl ((λ miss. cc), Ascending-Block p y ys hit a)
        (omega arith) (rw hit (omega arith)) in
    rw (from_first-scan p (pos m) (y ∷ ys) _ e)
      (length-take (m + 1) (y ∷ ys) (omega (arith, select-length-le (has_prefix p) ys)))

over_first :
    (p : Text) (m : ℕ) (names : List Text) (o : Option ℕ)
    → 0 < m
    → m < 1023
    → m + 3 ≤ length (select (has_prefix p) names)
    → Ascending names
    → FirstMatch (has_prefix p) names o
    → length (list_from p (pos m) names o).0 ≡ m + 1
unfolding list_from
over_first p m names none h b c a f = absurd (omega (arith, ap length f))
over_first p m names (some i) h b c a (y, ys, d, hit, s) = rw d (
    first_excess p y m ys h b hit (omega (arith, ap length s)) (rw d at (drop-Ascending i names a)))

-- If at least n + 3 names have the non-empty prefix and 0 < n < 1023, List returns n + 1 of them.
pub list_excess :
    (names : List Text) (c : ℕ) (p : Text) (n : ℕ)
    → 0 < n
    → n < 1023
    → n + 3 ≤ length (select (has_prefix (c ∷ p)) (sort names))
    → length (list names (c ∷ p) (pos n)).0 ≡ n + 1
unfolding list list_sorted
list_excess names c p n h b l =
    over_first (c ∷ p) n (sort names) (index_func (has_prefix (c ∷ p)) (sort names)) h b l
      (sort-Ascending names) (index_func-FirstMatch (has_prefix (c ∷ p)) (sort names))
