-- ===== src/KeyStore/Cache/Repeats.antt =====
-- A Get of the key cache after another Get of the same name (keystore.go).
use kes.Prelude.{
  ◌≡◌, refl, inl, inr, Bool, true, false, Option, some, arith, Option-cases, is_positive, Text,
  text_beq, text_beq_iff, text_eq,
}
use kes.Cache.Cow
use kes.Cache.Cow.{Cow, zero_cow}
use kes.Cache.Cow.Views.{at_capacity, get-set}
use kes.Api.Errors.{Result, ok, err, panic}
use kes.Crypto.Keys.{KeyVersion}
use kes.Crypto.Encoding.{Codec}
use kes.KeyStore.Interface.{KeyStore}
use kes.KeyStore.Cache.{CacheEntry, KeyCache, mark_used, install, install_ok, fetch, get}
use kes.KeyStore.Cache.Coherence.{Coherent, store-mark_used, get-mark_used}
use kes.KeyStore.Cache.Calls.{get-hit, get-miss}

module _ {S : Type 0} (ks : KeyStore S) (view : S → Text → Option Text) (codec : Codec) where
  install_ok-entry :
      (name : Text) (k : KeyVersion) (c : KeyCache S) (r : Result KeyVersion)
      → is_positive c.cache.capacity ≡ false
      → (install_ok ks codec name (c, r)).1 ≡ ok k
      → Cow.get name (install_ok ks codec name (c, r)).0.cache
        ≡ some (record { key = k; used = true })
  unfolding install
  install_ok-entry name k c (ok k') u e =
      let room : at_capacity c.cache ≡ false = ground (arith, u) in
      let same : k' ≡ k = ground arith in
      let n : text_beq name name ≡ true = (text_beq_iff name name).1 refl in
      ground (arith, room, same, n, get-set name name (record { key = k'; used = true }) c.cache)
  install_ok-entry name k c (err f) u e = cc
  install_ok-entry name k c (panic m) u e = cc

  get-marked :
      (name : Text) (k : KeyVersion) (c : KeyCache S) (u : Bool)
      → Cow.get name c.cache ≡ some (record { key = k; used = u })
      → ((get ks codec name c).1 ≡ ok k) × ((get ks codec name c).0.store ≡ c.store)
  get-marked name k c u hit =
      let entry : CacheEntry = record { key = k; used = u } in
      rw (get-hit ks codec name c entry hit) (refl, (store-mark_used view codec name entry c).0)

  -- After a Get that returned a key, from a coherent cache, a second Get of the name returns the
  -- same key and leaves the key store as it was.
  pub get-get :
      (name : Text) (k : KeyVersion) (c : KeyCache S)
      → Coherent view codec c
      → (get ks codec name c).1 ≡ ok k
      → ((get ks codec name (get ks codec name c).0).1 ≡ ok k)
        × ((get ks codec name (get ks codec name c).0).0.store ≡ (get ks codec name c).0.store)
  get-get name k c h e = elim (Option-cases (Cow.get name c.cache)) [
    | inl miss ↦
        let r : Result KeyVersion = (fetch ks codec name c).1 in
        let c' : KeyCache S = (fetch ks codec name c).0 in
        let missed : get ks codec name c ≡ install_ok ks codec name (c', r) =
          get-miss ks codec name c miss in
        let e' : (install_ok ks codec name (c', r)).1 ≡ ok k = cc (missed, e) in
        let u : is_positive c'.cache.capacity ≡ false = unfold fetch in h.unbounded in
        rw missed (get-marked name k _ true (install_ok-entry name k c' r u e'))
    | inr (entry, hit) ↦
        let n : text_beq name name ≡ true = (text_beq_iff name name).1 refl in
        let same : entry.key ≡ k = cc (get-hit ks codec name c entry hit, e) in
        let marked : Cow.get name (mark_used name entry c).cache
            ≡ some (record { key = k; used = true }) =
          ground (arith, n, same, get-mark_used view codec name name entry c hit) in
        rw (get-hit ks codec name c entry hit) (get-marked name k _ true marked)
  ]
