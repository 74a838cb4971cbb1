-- ===== src/KeyStore/Cache/Calls.antt =====
-- Get and Delete of the key cache of keystore.go.
use kes.Prelude.{
  ◌≡◌, refl, ◌∙◌, inl, inr, false, Option, none, some, arith, if◌then◌else◌, Bool-cases,
  Option-cases, Text, text_beq, text_eq,
}
use kes.Cache.Cow
use kes.Cache.Cow.{Cow, zero_cow}
use kes.Cache.Cow.Views.{capacity-delete, get-delete}
use kes.Api.Errors.{Error, Result, ok, err, panic, >>=-eq-ok, errors_is, is_sdk, key_not_found}
use kes.Crypto.Keys.{KeyVersion}
use kes.Crypto.Encoding.{Codec}
use kes.KeyStore.Interface.{KeyStore}
use kes.KeyStore.Cache.{
  CacheEntry, KeyCache, mark_used, get_cached, install, install_ok, delete, fetch, plain_not_found,
  get_locked, get,
}
use kes.KeyStore.Cache.Contract.{IsKeyStore}
use kes.KeyStore.Cache.Coherence.{
  Backed, Backed-view, Coherent, mark_used-Coherent, store-mark_used, install-Coherent,
  store-Coherent,
}

module _ {S : Type 0} where
  get_cached-hit :
      (name : Text) (c : KeyCache S) (entry : CacheEntry)
      → Cow.get name c.cache ≡ some entry
      → get_cached name c ≡ (mark_used name entry c, some entry.key)
  unfolding get_cached
  get_cached-hit name c entry hit = rw (hit, get_cached)

  get_cached-miss :
      (name : Text) (c : KeyCache S) → Cow.get name c.cache ≡ none → get_cached name c ≡ (c, none)
  unfolding get_cached
  get_cached-miss name c miss = rw (miss, get_cached)

module _ {S : Type 0} (ks : KeyStore S) (codec : Codec) where
  -- Get of a cached name marks the entry and returns its key; the store is not called.
  pub get-hit :
      (name : Text) (c : KeyCache S) (entry : CacheEntry)
      → Cow.get name c.cache ≡ some entry
      → get ks codec name c ≡ (mark_used name entry c, ok entry.key)
  unfolding get
  get-hit name c entry hit =
      rw (get_cached-hit name c entry hit, get) (rw (get_cached-hit name c entry hit))

  get_locked-miss :
      (name : Text) (c : KeyCache S)
      → Cow.get name c.cache ≡ none
      → get_locked ks codec name c ≡ install_ok ks codec name (fetch ks codec name c)
  unfolding get_locked
  get_locked-miss name c miss =
      rw (get_cached-miss name c miss, get_locked) (rw (get_cached-miss name c miss))

  -- Get of any other name asks the store, and keeps what it parses.
  pub get-miss :
      (name : Text) (c : KeyCache S)
      → Cow.get name c.cache ≡ none
      → get ks codec name c ≡ install_ok ks codec name (fetch ks codec name c)
  unfolding get
  get-miss name c miss =
      rw (get_cached-miss name c miss, get)
        (rw (get_cached-miss name c miss) (get_locked-miss name c miss))

  found : (r : Result Text) (b : Text) → plain_not_found ks codec r ≡ ok b → r ≡ ok b
  found (ok a) b h = h
  found (err e) b h = elim (Bool-cases (errors_is (is_sdk key_not_found) e)) [
    | inl t ↦ ground arith
    | inr t ↦ ground arith
  ]
  found (panic m) b h = cc

-- What a call of Get owes: coherence, and a key that the store holds.
abbrev pub GetsBacked :
    {S : Type 0} → (S → Text → Option Text) → Codec → Text → KeyCache S × Result KeyVersion → Type 0
GetsBacked view codec name r =
    Coherent view codec r.0 × ((k : KeyVersion) → r.1 ≡ ok k → Backed view codec r.0.store name k)

module _ {S : Type 0} (ks : KeyStore S) (view : S → Text → Option Text) (codec : Codec)
    (law : IsKeyStore ks view) where
  pub fetch_lem :
      (name : Text) (c : KeyCache S)
      → Coherent view codec c
      → GetsBacked view codec name (fetch ks codec name c)
  unfolding fetch
  fetch_lem name c h = (
    store-Coherent view codec c (ks.get name c.store).0 (law.get_keeps c.store name) h,
    λ k e.
        let (b, r, p) = >>=-eq-ok (plain_not_found ks codec (ks.get name c.store).1) _ e in
        let v = law.get_ok c.store name b (found ks codec _ b r) in
        (b, law.get_keeps c.store name name ∙ v, p),
  )

  install_ok_lem :
      (name : Text) (c : KeyCache S) (r : Result KeyVersion)
      → GetsBacked view codec name (c, r)
      → GetsBacked view codec name (install_ok ks codec name (c, r))
  install_ok_lem name c (err e) (h, g) = (h, g)
  install_ok_lem name c (panic m) (h, g) = (h, g)
  install_ok_lem name c (ok k) (h, g) = (
    install-Coherent view codec name k c h (g k refl),
    λ k' e.
        let (b, v, p) = g k refl in
        let same : (install name k c).store ≡ c.store = unfold install in refl in
        (b, cc (same, v), cc (p, e)),
  )

  get_lem :
      (name : Text) (c : KeyCache S)
      → Coherent view codec c
      → GetsBacked view codec name (get ks codec name c)
  get_lem name c h = elim (Option-cases (Cow.get name c.cache)) [
    | inl miss ↦
        rw (get-miss ks codec name c miss)
          (let (c', r) = fetch ks codec name c in install_ok_lem name _ _ (fetch_lem name c h))
    | inr (entry, hit) ↦ rw (get-hit ks codec name c entry hit) (
      mark_used-Coherent view codec name entry c hit h,
      λ k e.
          let (b, v, p) = h.backed name entry hit in
          (b, cc ((store-mark_used view codec name entry c).0, v), cc (p, e)),
    )
  ]

  -- Over a key store that keeps its contract: from a coherent cache, Get leaves a coherent cache,
  -- whether it succeeds or not.
  pub get-Coherent :
      (name : Text) (c : KeyCache S)
      → Coherent view codec c
      → Coherent view codec (get ks codec name c).0
  get-Coherent name c h = (get_lem name c h).0

  -- Over a key store that keeps its contract: from a coherent cache, every key that Get returns is
  -- one that the store holds, encoded, under the name.
  pub get-Backed :
      (name : Text) (k : KeyVersion) (c : KeyCache S)
      → Coherent view codec c
      → (get ks codec name c).1 ≡ ok k
      → Backed view codec (get ks codec name c).0.store name k
  get-Backed name k c h e = (get_lem name c h).1 k e

  delete-fails :
      (name : Text) (c : KeyCache S) (e : Error)
      → (ks.delete name c.store).1 ≡ some e
      → delete ks name c ≡ (record c { store = (ks.delete name c.store).0 }, some e)
  unfolding delete
  delete-fails name c e h = rw (h, delete)

  delete-succeeds :
      (name : Text) (c : KeyCache S)
      → (ks.delete name c.store).1 ≡ none
      → delete ks name c ≡ (
        record c { store = (ks.delete name c.store).0; cache = (Cow.delete name c.cache).0 },
        none,
      )
  unfolding delete
  delete-succeeds name c h = rw (h, delete)

  delete_cached-Coherent :
      (name : Text) (c : KeyCache S)
      → (ks.delete name c.store).1 ≡ none
      → Coherent view codec c
      → Coherent view codec
          (record c { store = (ks.delete name c.store).0; cache = (Cow.delete name c.cache).0 })
  delete_cached-Coherent name c d h = record {
    backed = λ j e g.
        let here = get-delete name j c.cache in
        let miss : text_beq name j ≡ false = ground (arith, here.1) in
        let still : Cow.get j c.cache ≡ some e = ground (arith, here.1) in
        Backed-view view codec c.store _ j e.key (ground (arith, law.delete_ok c.store name j d))
          (h.backed j e still);
    unbounded = rw (capacity-delete name c.cache) h.unbounded;
  }

  -- Over a key store that keeps its contract: from a coherent cache, Delete leaves a coherent
  -- cache, whether it succeeds or not.
  pub delete-Coherent :
      (name : Text) (c : KeyCache S)
      → Coherent view codec c
      → Coherent view codec (delete ks name c).0
  delete-Coherent name c h = elim (Option-cases (ks.delete name c.store).1) [
    | inl d ↦ rw (delete-succeeds name c d) (delete_cached-Coherent name c d h)
    | inr (e, d) ↦
        rw (delete-fails name c e d)
          (store-Coherent view codec c _ (λ j. law.delete_fails c.store name j e d) h)
  ]

  -- Over a key store that keeps its contract: if Delete reports no error, neither the cache nor the
  -- store has the name any more, and every other name is as it was in both.
  pub delete-gone :
      (name j : Text) (c : KeyCache S)
      → (delete ks name c).1 ≡ none
      → (Cow.get j (delete ks name c).0.cache
          ≡ (if text_beq name j then none else Cow.get j c.cache))
        × (view (delete ks name c).0.store j ≡ (if text_beq name j then none else view c.store j))
  delete-gone name j c h = elim (Option-cases (ks.delete name c.store).1) [
    | inl d ↦
        rw (delete-succeeds name c d)
          ((get-delete name j c.cache).1, law.delete_ok c.store name j d)
    | inr (e, d) ↦ cc (delete-fails name c e d)
  ]
