-- ===== src/KeyStore/Listing/Order.antt =====
-- The order in which a back end, or the range over a map of Go, gives the names.
use kes.Prelude.{◌≡◌, refl, ap, List, ℤ, Text}
use kes.Prelude.Sorting.{sort, sort-Perm}
use mathlib.Core.List.{Perm}
use mathlib.Core.Quot
use mathlib.Core.Quot.{Quot}
use kes.Cache.Cow
use kes.KeyStore.Listing
use kes.KeyStore.Memory
use kes.KeyStore.Memory.{MemKeyStore}
use kes.KeyStore.Memory.Paging.{list_lem}

-- The names of a store, without an order.
abbrev pub Names : Type 0
Names = Quot {α = List Text} Perm

texts_set : IsSet (List Text)
texts_set = hlevel

-- The names in the order of slices.Sort, which is one for each collection of names.
unfoldable in_order : Names → List Text
in_order = Quot.lift texts_set sort (λ xs ys p. sort-Perm p)

abbrev pub names_of : MemKeyStore → Names
names_of ks = Quot.mk (Cow.keys ks)

-- Two stores with the same names list the same page, whatever the order of the names: for the
-- in-memory store that of its map, and for the helper of internal/keystore that of the back end.
pub list_unordered :
    (p : Text) (n : ℤ) (ks ks' : MemKeyStore)
    → names_of ks ≡ names_of ks'
    → ((Memory.list p n ks).1 ≡ (Memory.list p n ks').1)
      × (Listing.list (Cow.keys ks) p n ≡ Listing.list (Cow.keys ks') p n)
unfolding in_order Listing.list
list_unordered p n ks ks' h =
    let same : sort (Cow.keys ks) ≡ sort (Cow.keys ks') = ap in_order h in
    (rw (list_lem p n ks, list_lem p n ks', same) refl, ap (Listing.list_sorted p n) same)
