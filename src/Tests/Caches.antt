-- ===== src/Tests/Caches.antt =====
-- The cache over an in-memory store.
use kes.Prelude.{nat_eq, ℕ, ◌≡◌, refl, true, none, some, [], ◌∷◌, pos, text_eq}
use kes.Cache.Cow
use kes.Cache.Cow.{Cow, new_cow}
use kes.Cache.Cow.Bounds.{IsValid, set_op, delete_op, run, run-IsValid, new_cow-IsValid}
use kes.Api.Errors.{ok}
use kes.Crypto.Keys.{key_version_marshal, secret_key_marshal, hmac_key_marshal}
use kes.Crypto.Encoding.{parse_key_version}
use kes.Crypto.Encoding.RoundTrip.{parse-encode}
use kes.KeyStore.Memory.{MemKeyStore, mem_key_store}
use kes.KeyStore.Memory
use kes.Prelude.Maps.{lookup, put}
use kes.KeyStore.Cache.{
  KeyCache, runs, get_cached, get_locked, mark_used, unused_tick, get, create, delete, fetch,
  install,
}
use kes.KeyStore.Cache.Contract.{mem_key_store-IsKeyStore}
use kes.KeyStore.Cache.Coherence.{Backed, Coherent}
use kes.KeyStore.Cache.Calls.{get-Backed, delete-gone}
use kes.KeyStore.Cache.Creation.{get-create}
use kes.KeyStore.Cache.Race.{deleted_key_returned}
use kes.Tests.Data.{
  one_key, no_keys, mem_view, cache_of, codec, codec-Encodes, key_version, key_version-IsKeyVersion,
  key_message, my_key, durations, bytes16,
}

cache_of-Coherent : (ks : MemKeyStore) → Coherent mem_view codec (cache_of ks)
unfolding Cow.get
cache_of-Coherent ks = record { backed = λ j e h. cc; unbounded = refl }

abbrev cow_of_two : Cow ℕ ℕ
cow_of_two = new_cow (pos 2)

run-IsValid_example :
    IsValid (run cow_of_two (set_op 5 50 ∷ set_op 6 60 ∷ set_op 7 70 ∷ delete_op 5 ∷ []))
run-IsValid_example =
    run-IsValid cow_of_two (set_op 5 50 ∷ set_op 6 60 ∷ set_op 7 70 ∷ delete_op 5 ∷ [])
      (new_cow-IsValid (pos 2))

abbrev marked : KeyCache MemKeyStore
marked = record (cache_of one_key) {
  cache = record {
    ptr = some ((my_key, record { key = key_version; used = true }) ∷ []);
    capacity = pos 0;
  };
}

marshalled : key_version_marshal key_version ≡ ok key_message
unfolding key_version_marshal secret_key_marshal hmac_key_marshal
marshalled = refl

parsed : parse_key_version codec bytes16 ≡ ok key_version
parsed =
    (parse-encode codec key_version key_message bytes16 key_version-IsKeyVersion marshalled
      codec-Encodes).1

got : (get mem_key_store codec my_key (cache_of one_key)).1 ≡ ok key_version
unfolding get get_cached get_locked mark_used fetch install Cow.get Cow.set Cow.copy Memory.get
    lookup put
got = rw parsed refl

get-Backed_example :
    Backed mem_view codec
      (get mem_key_store codec my_key (cache_of one_key)).0.store
      my_key
      key_version
get-Backed_example =
    get-Backed mem_key_store mem_view codec mem_key_store-IsKeyStore my_key key_version
      (cache_of one_key) (cache_of-Coherent one_key) got

fetched : (fetch mem_key_store codec my_key (cache_of one_key)).1 ≡ ok key_version
unfolding fetch Memory.get Cow.get lookup
fetched = parsed

deleted : (delete mem_key_store my_key (cache_of one_key)).1 ≡ none
unfolding delete Memory.delete Cow.delete lookup
deleted = refl

same_store : (fetch mem_key_store codec my_key (cache_of one_key)).0 ≡ cache_of one_key
unfolding fetch Memory.get Cow.get lookup
same_store = refl

delete-gone_example :
    (Cow.get my_key (delete mem_key_store my_key (cache_of one_key)).0.cache ≡ none)
    × (mem_view (delete mem_key_store my_key (cache_of one_key)).0.store my_key ≡ none)
unfolding Cow.get lookup
delete-gone_example =
    delete-gone mem_key_store mem_view codec mem_key_store-IsKeyStore my_key my_key
      (cache_of one_key) deleted

created :
    ((Memory.create my_key bytes16 no_keys).1 ≡ none)
    × ((Memory.get my_key (Memory.create my_key bytes16 no_keys).0).1 ≡ ok bytes16)
unfolding Memory.create Memory.get Cow.add Cow.get lookup
created = (refl, refl)

get-create_example :
    ((create mem_key_store codec my_key key_version (cache_of no_keys)).1 ≡ ok tt)
    × ((get mem_key_store codec my_key
          (create mem_key_store codec my_key key_version (cache_of no_keys)).0).1
        ≡ ok key_version)
get-create_example =
    get-create mem_key_store mem_view codec mem_key_store-IsKeyStore my_key bytes16 bytes16
      key_version key_message (cache_of no_keys) (cache_of-Coherent no_keys)
      key_version-IsKeyVersion marshalled codec-Encodes (created.0) (created.1)

runs_unused : runs durations unused_tick ≡ true
unfolding runs
runs_unused = refl

marked-IsValid : IsValid marked.cache
unfolding lookup
marked-IsValid = record { distinct = (refl, tt); bounded = λ q. cc }

deleted_key_returned_example :
    let raced =
      install my_key key_version
        (delete mem_key_store my_key (fetch mem_key_store codec my_key (cache_of one_key)).0).0 in
    ((get mem_key_store codec my_key raced).1 ≡ ok key_version)
    × (mem_view raced.store my_key ≡ none)
deleted_key_returned_example =
    deleted_key_returned mem_key_store mem_view codec mem_key_store-IsKeyStore my_key key_version
      (cache_of one_key) (cache_of-Coherent one_key) fetched (rw same_store deleted)
