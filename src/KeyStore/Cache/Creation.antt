-- ===== src/KeyStore/Cache/Creation.antt =====
-- Create of the key cache of keystore.go, alone and before a Get.
use kes.Prelude.{
  ◌≡◌, refl, ◌≢◌, inl, inr, true, false, Option, none, some, arith, Bool-cases, Option-cases, Text,
  text_beq, text_beq_iff, text_eq,
}
use kes.Cache.Cow
use kes.Cache.Cow.{Cow, zero_cow}
use kes.Api.Errors.{Error, Result, ok, err, panic, errors_is, is_sdk, key_exists}
use kes.Crypto.Keys.{KeyVersion}
use kes.Crypto.Encoding.{Codec, encode_key_version, parse_key_version}
use kes.KeyStore.Interface.{KeyStore}
use kes.KeyStore.Cache.{KeyCache, create_encoded, create, fetch, get}
use kes.KeyStore.Cache.Contract.{IsKeyStore}
use kes.KeyStore.Cache.Coherence.{Coherent, store-Coherent}
use kes.KeyStore.Cache.Calls.{get-miss}
use kes.Crypto.Keys.{PbKeyVersion, key_version_marshal}
use kes.Crypto.Keys.Messages.{IsKeyVersion}
use kes.Crypto.Encoding.RoundTrip.{Encodes, parse-encode}

module _ {S : Type 0} (ks : KeyStore S) (view : S → Text → Option Text) (codec : Codec)
    (law : IsKeyStore ks view) where
  create-encodes :
      (name b : Text) (key : KeyVersion) (c : KeyCache S)
      → encode_key_version codec key ≡ ok b
      → (ks.create name b c.store).1 ≡ none
      → create ks codec name key c ≡ (record c { store = (ks.create name b c.store).0 }, ok tt)
  unfolding create
  create-encodes name b key c e h = rw (e, create) (rw (h, create_encoded))

  create-refused :
      (name b : Text) (key : KeyVersion) (c : KeyCache S) (f : Error)
      → encode_key_version codec key ≡ ok b
      → (ks.create name b c.store).1 ≡ some f
      → (create ks codec name key c).0 ≡ record c { store = (ks.create name b c.store).0 }
  unfolding create
  create-refused name b key c f e h = elim (Bool-cases (errors_is (is_sdk key_exists) f)) [
    | inl t ↦ rw (e, create) (rw (h, create_encoded) (rw t))
    | inr t ↦ rw (e, create) (rw (h, create_encoded) (rw t))
  ]

  create-unencoded :
      (name : Text) (key : KeyVersion) (c : KeyCache S) (r : Result Text)
      → encode_key_version codec key ≡ r
      → ((b : Text) → r ≢ ok b)
      → (create ks codec name key c).0 ≡ c
  unfolding create
  create-unencoded name key c (ok b) e n = absurd (n b refl)
  create-unencoded name key c (err f) e n = rw (e, create)
  create-unencoded name key c (panic m) e n = rw (e, create)

  created-Coherent :
      (name b : Text) (c : KeyCache S)
      → (ks.create name b c.store).1 ≡ none
      → Coherent view codec c
      → Coherent view codec (record c { store = (ks.create name b c.store).0 })
  created-Coherent name b c h co = record {
    backed = λ j e g.
        let (b', v, p) = co.backed j e g in
        let made = law.create_ok c.store name b j h in
        let n : text_beq name j ≡ false = ground (arith, text_beq_iff name j, made.0, v) in
        (b', ground (arith, made.1, n, v), p);
    unbounded = co.unbounded;
  }

  -- Over a key store that keeps its contract: from a coherent cache, Create leaves a coherent
  -- cache, whether it succeeds or not.
  pub create-Coherent :
      (name : Text) (key : KeyVersion) (c : KeyCache S)
      → Coherent view codec c
      → Coherent view codec (create ks codec name key c).0
  create-Coherent name key c co = go (encode_key_version codec key) refl
    where
      go :
          (r : Result Text)
          → encode_key_version codec key ≡ r
          → Coherent view codec (create ks codec name key c).0
      go (err f) e = rw (create-unencoded name key c (err f) e (λ b q. cc)) co
      go (panic m) e = rw (create-unencoded name key c (panic m) e (λ b q. cc)) co
      go (ok b) e = elim (Option-cases (ks.create name b c.store).1) [
        | inl h ↦ rw (create-encodes name b key c e h) (created-Coherent name b c h co)
        | inr (f, h) ↦
            rw (create-refused name b key c f e h)
              (store-Coherent view codec c _ (λ j. law.create_fails c.store name b j f h) co)
      ]

  fetch-reads :
      (name b : Text) (k : KeyVersion) (c : KeyCache S)
      → (ks.get name c.store).1 ≡ ok b
      → parse_key_version codec b ≡ ok k
      → fetch ks codec name c ≡ (record c { store = (ks.get name c.store).0 }, ok k)
  unfolding fetch
  fetch-reads name b k c h p = rw h (rw p)

  create-uncached :
      (name b : Text) (c : KeyCache S)
      → Coherent view codec c
      → (ks.create name b c.store).1 ≡ none
      → Cow.get name c.cache ≡ none
  create-uncached name b c co h = elim (Option-cases (Cow.get name c.cache)) [
    | inl miss ↦ miss
    | inr (entry, hit) ↦
        let (b', v, p) = co.backed name entry hit in
        absurd (ground (arith, (law.create_ok c.store name b name h).0, v))
  ]

  -- Over a key store that keeps its contract: if the store accepts the encoding of a valid key
  -- version under a name, and then answers a read of that name, Create reports no error and the
  -- next Get of the name returns that key version. The cache is coherent before, the key version is
  -- marshalled, and the encoders do what is documented.
  pub get-create :
      (name proto b : Text) (key : KeyVersion) (m : PbKeyVersion) (c : KeyCache S)
      → Coherent view codec c
      → IsKeyVersion key
      → key_version_marshal key ≡ ok m
      → Encodes codec m proto
      → (ks.create name (codec.base64_encode proto) c.store).1 ≡ none
      → (ks.get name (ks.create name (codec.base64_encode proto) c.store).0).1 ≡ ok b
      → ((create ks codec name key c).1 ≡ ok tt)
        × ((get ks codec name (create ks codec name key c).0).1 ≡ ok key)
  get-create name proto b key m c co valid em en made read =
      let pe = parse-encode codec key m proto valid em en in
      let enc : Text = codec.base64_encode proto in
      let created = create-encodes name enc key c pe.0 made in
      let after : KeyCache S = record c { store = (ks.create name enc c.store).0 } in
      let same : text_beq name name ≡ true = (text_beq_iff name name).1 refl in
      let held : b ≡ enc = ground (
        arith,
        same,
        (law.create_ok c.store name enc name made).1,
        law.get_ok (ks.create name enc c.store).0 name b read,
      ) in
      let miss = create-uncached name enc c co made in
      (
        rw created,
        rw created (
            rw (get-miss ks codec name after miss)
              (rw (fetch-reads name b key after read (rw held pe.1)))),
      )
