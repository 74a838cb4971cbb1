-- ===== src/KeyStore/Memory/Views.antt =====
-- MemKeyStore as a finite map: what Create, Delete and Get do to the keys that Get finds.
use kes.Prelude.{
  ◌≡◌, false, not, ◌&&◌, Option, none, some, arith, if◌then◌else◌, is_some, is_positive, Text,
  text_beq, text_eq,
}
use kes.Cache.Cow
use kes.Cache.Cow.Views.{at_capacity, capacity-add, get-add, get-delete}
use kes.Api.Errors.{Result, ok, err, sdk, key_exists, key_not_found}
use kes.KeyStore.Memory.{MemKeyStore, create, delete, get}

-- What Get returns for a key.
abbrev pub read : Text → MemKeyStore → Result Text
read name ks = (get name ks).1

abbrev pub read_as : Option Text → Result Text
read_as none = err (sdk key_not_found)
read_as (some val) = ok val

-- The zero Cow, on which MemKeyStore stands, has no capacity limit.
abbrev pub IsUnbounded : MemKeyStore → Type 0
IsUnbounded ks = is_positive ks.capacity ≡ false

read-Cow : (name : Text) (ks : MemKeyStore) → read name ks ≡ read_as (Cow.get name ks)
unfolding get
read-Cow name ks = ground arith

room : (ks : MemKeyStore) → IsUnbounded ks → at_capacity ks ≡ false
room ks u = ground arith

-- In a store with no capacity limit, Create of a key that Get finds fails with ErrKeyExists and
-- changes what Get returns for no key. Of any other key it succeeds, after which Get returns the
-- value for it and, for every other key, what it did. The store still has no capacity limit.
pub create_lem :
    (name j value : Text) (ks : MemKeyStore)
    → IsUnbounded ks
    → ((create name value ks).1
        ≡ (if is_some (Cow.get name ks) then some (sdk key_exists) else none))
      × (read j (create name value ks).0
          ≡ (if not (is_some (Cow.get name ks)) && text_beq name j then ok value else read j ks))
      × IsUnbounded (create name value ks).0
unfolding create get
create_lem name j value ks u =
    ground (arith, get-add name j value ks, room ks u, capacity-add name value ks)

-- Delete of a key that Get finds succeeds, after which Get reports it as not found and returns for
-- every other key what it did; of any other key it fails with ErrKeyNotFound and changes nothing.
pub delete_lem :
    (name j : Text) (ks : MemKeyStore)
    → ((delete name ks).1 ≡ (if is_some (Cow.get name ks) then none else some (sdk key_not_found)))
      × (read j (delete name ks).0
          ≡ (if text_beq name j then err (sdk key_not_found) else read j ks))
unfolding delete get
delete_lem name j ks = ground (arith, get-delete name j ks)
