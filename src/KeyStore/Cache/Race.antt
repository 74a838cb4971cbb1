-- ===== src/KeyStore/Cache/Race.antt =====
-- A Delete between the two halves of a concurrent Get: Get holds the barrier of the name while it
-- asks the store and installs the entry, and Delete takes no barrier.
use kes.Prelude.{
  ◌≡◌, refl, ap, ◌∙◌, true, Option, none, some, Text, text_beq, text_beq_iff, text_eq,
}
use kes.Cache.Cow
use kes.Cache.Cow.{Cow, zero_cow}
use kes.Api.Errors.{Result, ok}
use kes.Crypto.Keys.{KeyVersion}
use kes.Crypto.Encoding.{Codec}
use kes.KeyStore.Interface.{KeyStore}
use kes.KeyStore.Cache.{CacheEntry, KeyCache, install, delete, fetch, get}
use kes.KeyStore.Cache.Contract.{IsKeyStore}
use kes.KeyStore.Cache.Coherence.{Coherent, get-install}
use kes.KeyStore.Cache.Calls.{fetch_lem, get-hit, delete-Coherent, delete-gone}

module _ {S : Type 0} (ks : KeyStore S) (view : S → Text → Option Text) (codec : Codec)
    (law : IsKeyStore ks view) where
  -- Over a key store that keeps its contract: from a coherent cache, a Get has fetched a key, and
  -- before it installs the entry, a Delete of the same name succeeds. Then the store does not hold
  -- the name any more, and yet the next Get returns the key.
  pub deleted_key_returned :
      (name : Text) (k : KeyVersion) (c : KeyCache S)
      → Coherent view codec c
      → (fetch ks codec name c).1 ≡ ok k
      → (delete ks name (fetch ks codec name c).0).1 ≡ none
      → let raced = install name k (delete ks name (fetch ks codec name c).0).0 in
        ((get ks codec name raced).1 ≡ ok k) × (view raced.store name ≡ none)
  deleted_key_returned name k c h f d =
      let fetched = (fetch ks codec name c).0 in
      let deleted = (delete ks name fetched).0 in
      let coherent : Coherent view codec deleted =
        delete-Coherent ks view codec law name fetched (fetch_lem ks view codec law name c h).0 in
      let same : text_beq name name ≡ true = (text_beq_iff name name).1 refl in
      let entry : CacheEntry = record { key = k; used = true } in
      let hit : Cow.get name (install name k deleted).cache ≡ some entry =
        get-install view codec name name k deleted coherent ∙ rw same in
      let gone : view deleted.store name ≡ none =
        (delete-gone ks view codec law name name fetched d).1 ∙ rw same in
      (
        ap (λ (r : KeyCache S × Result KeyVersion). r.1)
            (get-hit ks codec name (install name k deleted) entry hit),
        unfold install in gone,
      )
