-- ===== src/KeyStore/Cache/Coherence.antt =====
-- When the key cache of keystore.go agrees with its key store, and the changes of an entry.
use kes.Prelude.{
  ◌≡◌, refl, ◌∙◌, ◌⊎◌, inl, inr, true, false, Option, some, arith, if◌then◌else◌, Bool-cases,
  Option-cases, is_positive, Text, text_beq, text_beq_iff, text_eq,
}
use kes.Prelude.Maps.{lookup-put}
use kes.Cache.Cow
use kes.Cache.Cow.{Cow, zero_cow}
use kes.Cache.Cow.Views.{at_capacity, capacity-set, get-set}
use kes.Api.Errors.{ok}
use kes.Crypto.Keys.{KeyVersion}
use kes.Crypto.Encoding.{Codec, parse_key_version}
use kes.KeyStore.Cache.{CacheEntry, KeyCache, new_cache, mark_used, install}

module _ {S : Type 0} (view : S → Text → Option Text) (codec : Codec) where
  -- The store holds an encoding of the key under the name.
  abbrev pub Backed : S → Text → KeyVersion → Type 0
  Backed s name k = (b : Text) × (view s name ≡ some b) × (parse_key_version codec b ≡ ok k)

  pub record Coherent (c : KeyCache S) : Type 0 where
    pub backed : (j : Text) (e : CacheEntry) → Cow.get j c.cache ≡ some e → Backed c.store j e.key
    pub unbounded : is_positive c.cache.capacity ≡ false

  pub Backed-view :
      (s s' : S) (j : Text) (k : KeyVersion) → view s' j ≡ view s j → Backed s j k → Backed s' j k
  Backed-view s s' j k e (b, v, p) = (b, e ∙ v, p)

  pub new_cache-Coherent : (s : S) → Coherent (new_cache s)
  unfolding new_cache Cow.get
  new_cache-Coherent s = record { backed = λ j e h. cc; unbounded = refl }

  -- After marking, the entry is marked and every other is as before.
  pub get-mark_used :
      (name j : Text) (entry : CacheEntry) (c : KeyCache S)
      → Cow.get name c.cache ≡ some entry
      → Cow.get j (mark_used name entry c).cache
        ≡ (if text_beq name j then some (record entry { used = true }) else Cow.get j c.cache)
  unfolding mark_used Cow.get
  get-mark_used name j entry c h = elim (Option-cases c.cache.ptr) [
    | inl p ↦ ground arith
    | inr (m, p) ↦ ground (arith, lookup-put name j (record entry { used = true }) m)
  ]

  pub store-mark_used :
      (name : Text) (entry : CacheEntry) (c : KeyCache S)
      → ((mark_used name entry c).store ≡ c.store)
        × ((mark_used name entry c).cache.capacity ≡ c.cache.capacity)
  unfolding mark_used
  store-mark_used name entry c = ground arith

  pub mark_used-Coherent :
      (name : Text) (entry : CacheEntry) (c : KeyCache S)
      → Cow.get name c.cache ≡ some entry
      → Coherent c
      → Coherent (mark_used name entry c)
  mark_used-Coherent name entry c hit h = record {
    backed = λ j e g. mark_used-backed j e g (Bool-cases (text_beq name j));
    unbounded = ground (arith, store-mark_used name entry c);
  }
    where
      same : (mark_used name entry c).store ≡ c.store
      same = (store-mark_used name entry c).0

      mark_used-backed :
          (j : Text) (e : CacheEntry)
          → Cow.get j (mark_used name entry c).cache ≡ some e
          → (text_beq name j ≡ true) ⊎ (text_beq name j ≡ false)
          → Backed (mark_used name entry c).store j e.key
      mark_used-backed j e g (inl t) =
          let (b, v, p) = h.backed name entry hit in
          let n : name ≡ j = (text_beq_iff name j).0 t in
          let k : entry.key ≡ e.key = ground (arith, get-mark_used name j entry c hit) in
          (b, cc (same, n, v), cc (k, p))
      mark_used-backed j e g (inr t) =
          let (b, v, p) = h.backed j e (ground (arith, get-mark_used name j entry c hit)) in
          (b, cc (same, v), p)

  pub get-install :
      (name j : Text) (k : KeyVersion) (c : KeyCache S)
      → Coherent c
      → Cow.get j (install name k c).cache
        ≡ (if text_beq name j then some (record { key = k; used = true }) else Cow.get j c.cache)
  unfolding install
  get-install name j k c h =
      let room : at_capacity c.cache ≡ false = ground (arith, h.unbounded) in
      ground (arith, room, get-set name j (record { key = k; used = true }) c.cache)

  pub install-Coherent :
      (name : Text) (k : KeyVersion) (c : KeyCache S)
      → Coherent c
      → Backed c.store name k
      → Coherent (install name k c)
  install-Coherent name k c h (b, v, p) = record {
    backed = λ j e g. install-backed j e g (Bool-cases (text_beq name j));
    unbounded =
        unfold install in
        rw (capacity-set name (record { key = k; used = true }) c.cache) h.unbounded;
  }
    where
      same : (install name k c).store ≡ c.store
      same = unfold install in refl

      install-backed :
          (j : Text) (e : CacheEntry)
          → Cow.get j (install name k c).cache ≡ some e
          → (text_beq name j ≡ true) ⊎ (text_beq name j ≡ false)
          → Backed (install name k c).store j e.key
      install-backed j e g (inl t) =
          let n : name ≡ j = (text_beq_iff name j).0 t in
          let q : k ≡ e.key = ground (arith, get-install name j k c h) in
          (b, cc (same, n, v), cc (q, p))
      install-backed j e g (inr t) =
          let (b', v', p') = h.backed j e (ground (arith, get-install name j k c h)) in
          (b', cc (same, v'), p')

  -- The store may have changed where the cache has no entry.
  pub store-Coherent :
      (c : KeyCache S) (s : S)
      → ((j : Text) → view s j ≡ view c.store j)
      → Coherent c
      → Coherent (record c { store = s })
  store-Coherent c s same h = record {
    backed = λ j e g. Backed-view c.store s j e.key (same j) (h.backed j e g);
    unbounded = h.unbounded;
  }
