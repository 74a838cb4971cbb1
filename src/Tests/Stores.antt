-- ===== src/Tests/Stores.antt =====
-- The in-memory store and the listing of internal/keystore.
use kes.Prelude.{refl, List, some, ◌≡◌, [], ◌∷◌, pos, select, codes, text_eq, has_prefix}
use kes.Prelude.Sorting.{sort}
use kes.Cache.Cow
use kes.Api.Errors.{ok}
use kes.KeyStore.Memory.{MemKeyStore, mem_key_store}
use kes.KeyStore.Memory
use kes.KeyStore.Memory.Paging.{first_page, list_lem}
use kes.KeyStore.Listing
use kes.KeyStore.Listing.Order.{names_of, list_unordered}
use mathlib.Core.List.Perm
use mathlib.Core.Quot
use kes.KeyStore.Memory.Replies
use kes.KeyStore.Memory.Replies.{replies, promises, replies_lem}
use kes.Tests.Data.{one_key, my_key, bytes16}

list_lem_example : Memory.list (codes "my") (pos 2) one_key ≡ (
  one_key,
  ok (first_page (codes "my") (pos 2) (select (has_prefix (codes "my")) (sort (Cow.keys one_key)))),
)
list_lem_example = list_lem (codes "my") (pos 2) one_key

-- A key that exists, one that does not, and errors for both.
abbrev calls : List Replies.Call
calls =
    Replies.create my_key []
    ∷ Replies.create (codes "other") bytes16
    ∷ Replies.delete my_key
    ∷ Replies.get my_key
    ∷ Replies.get (codes "other")
    ∷ Replies.delete my_key
    ∷ []

replies_lem_example : replies mem_key_store calls one_key ≡ promises calls (λ j. Cow.get j one_key)
replies_lem_example = replies_lem calls one_key refl

abbrev two_keys : MemKeyStore
two_keys = record {
  ptr = some ((codes "b", codes "2") ∷ (codes "a", codes "1") ∷ []);
  capacity = pos 0;
}

abbrev turned : MemKeyStore
turned = record {
  ptr = some ((codes "a", codes "1") ∷ (codes "b", codes "2") ∷ []);
  capacity = pos 0;
}

same_names : names_of two_keys ≡ names_of turned
unfolding Cow.keys Cow.key_list
same_names = Quot.sound (Perm.swap (codes "a") (codes "b") [])

list_unordered_example :
    ((Memory.list [] (pos 1) two_keys).1 ≡ (Memory.list [] (pos 1) turned).1)
    × (Listing.list (Cow.keys two_keys) [] (pos 1) ≡ Listing.list (Cow.keys turned) [] (pos 1))
list_unordered_example = list_unordered [] (pos 1) two_keys turned same_names
