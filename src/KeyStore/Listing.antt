-- ===== src/KeyStore/Listing.antt =====
-- List of internal/keystore/keystore.go, with which the external key stores answer listings.
pub mod Pages
pub mod Excess
pub mod Order
use kes.Prelude.{
  ℕ, suc, ◌-◌, Bool, not, ◌&&◌, ◌||◌, Option, none, some, List, [], ◌∷◌, arith, ltb, leb, ◌==◌,
  if◌then◌else◌, ℤ, is_positive, is_negative, to_ℕ, length, take, drop, Text, text_beq, text_eq,
  has_prefix,
}
use kes.Prelude.Sorting.{sort}
use kes.KeyStore.Pages.{index_func, text_at}

abbrev pub max_names : ℕ
max_names = 1024

-- (n > 0 && i > n) || i == N
unfoldable pub page_ends : ℤ → ℕ → Bool
page_ends n i = (is_positive n && ltb (to_ℕ n) i) || i == max_names

-- The loop over the names from the first match on; `none` where it runs to the end.
unfoldable pub scan : Text → ℤ → List Text → ℕ → List Text → Option (List Text × Text)
scan prefix n names i [] = none
scan prefix n names i (name ∷ rest) =
    let more = scan prefix n names (suc i) rest in
    if not (has_prefix prefix name)
    then some (take i names, [])
    else if page_ends n i
    then (if i == length names - 1 then some (names, []) else some (take i names, text_at names i))
    else more

-- The switch after the loop. n <= 0 is `not (is_positive n)`.
unfoldable pub cut : ℤ → List Text → List Text × Text
cut n names =
    if (not (is_positive n) && leb (length names) max_names)
      || (not (is_negative n) && leb (length names) (to_ℕ n))
    then (names, [])
    else if not (is_positive n)
    then (take max_names names, text_at names max_names)
    else (take (to_ℕ n) names, text_at names (to_ℕ n))

-- From the first match on, names = names[i:].
unfoldable pub from_first : Text → ℤ → List Text → List Text × Text
from_first prefix n names = elim (scan prefix n names 0 names) [
  | some result ↦ result
  | none ↦ cut n names
]

unfoldable pub list_from : Text → ℤ → List Text → Option ℕ → List Text × Text
list_from prefix n names none = ([], [])
list_from prefix n names (some i) = from_first prefix n (drop i names)

-- The body of List, on the sorted names.
unfoldable pub list_sorted : Text → ℤ → List Text → List Text × Text
list_sorted prefix n names =
    if text_beq prefix []
    then cut n names
    else list_from prefix n names (index_func (has_prefix prefix) names)

unfoldable pub list : List Text → Text → ℤ → List Text × Text
list names prefix n = list_sorted prefix n (sort names)
