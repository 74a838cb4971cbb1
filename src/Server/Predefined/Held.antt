-- ===== src/Server/Predefined/Held.antt =====
-- createPredefinedKeys of server.go makes sure that the keys exist.
use mathlib.Core.Path.{subst}
use kes.Prelude.{
  sym, ap, ◌∙◌, ◌≡◌, refl, inl, inr, true, false, Option, some, Option-cases, arith, Text, List, [],
  ◌∷◌, ℕ, ◌+◌, is_some, All, text_eq, text_beq_iff,
}
use kes.Api.Errors.{Error, Result, ok, err, panic, errors_is, is_sdk, key_exists, sdk}
use kes.Crypto.Keys.{SecretKey, HmacKey, KeyVersion}
use kes.Crypto.Encoding.{encode_key_version}
use kes.KeyStore.Interface.{KeyStore}
use kes.KeyStore.Cache
use kes.KeyStore.Cache.{KeyCache, create_encoded}
use kes.KeyStore.Cache.Contract.{IsKeyStore}
use kes.Server.Keys.{Libraries, World}
use kes.Server.Predefined.{
  tolerated, tolerate, create_predefined, create_one, go_on, create_predefined_keys,
}

tolerated-exists : (e : Error) → tolerated e ≡ true → errors_is (is_sdk key_exists) e ≡ true
unfolding errors_is is_sdk
tolerated-exists (sdk key_exists) h = refl
tolerated-exists e h = ground arith

-- The store keeps its contract and, while it is usable, says that a key exists only where it does;
-- no encoder says so.
module _ {S : Type 0} (ks : KeyStore S) (view : S → Text → Option Text) (law : IsKeyStore ks view)
    (Usable : S → Type 0)
    (create_law : (s : S) (name b : Text) → Usable s → Usable (ks.create name b s).0)
    (exists_law : (s : S) (name b : Text) (e : Error)
      → Usable s
      → (ks.create name b s).1 ≡ some e
      → errors_is (is_sdk key_exists) e ≡ true
      → is_some (view s name) ≡ true)
    (l : Libraries) (admin : Text)
    (encode_law : (k : KeyVersion) (e : Error)
      → encode_key_version l.codec k ≡ err e
      → tolerated e ≡ false) where
  abbrev Held : KeyCache S → Text → Type 0
  Held c name = is_some (view c.store name) ≡ true

  create_encoded-keeps :
      (name : Text) (r : Result Text) (c : KeyCache S) (j : Text)
      → Held c j
      → Held (create_encoded ks l.codec name r c).0 j
  unfolding create_encoded
  create_encoded-keeps name (err e) c j h = h
  create_encoded-keeps name (panic why) c j h = h
  create_encoded-keeps name (ok b) c j h = elim (Option-cases (ks.create name b c.store).1) [
    | inl m ↦ ground (arith, law.create_ok c.store name b j m)
    | inr (e, m) ↦ ground (arith, law.create_fails c.store name b j e m)
  ]

  create_encoded-usable :
      (name : Text) (r : Result Text) (c : KeyCache S)
      → Usable c.store
      → Usable (create_encoded ks l.codec name r c).0.store
  unfolding create_encoded
  create_encoded-usable name (err e) c u = u
  create_encoded-usable name (panic why) c u = u
  create_encoded-usable name (ok b) c u =
      let stored : (create_encoded ks l.codec name (ok b) c).0.store
          ≡ (ks.create name b c.store).0 =
        ground arith in
      subst Usable (sym stored) (create_law c.store name b u)

  create_encoded-holds :
      (name : Text) (r : Result Text) (c : KeyCache S)
      → Usable c.store
      → tolerate ks l admin (create_encoded ks l.codec name r c).1 ≡ ok tt
      → ((e : Error) → r ≡ err e → tolerated e ≡ false)
      → Held (create_encoded ks l.codec name r c).0 name
  unfolding create_encoded
  create_encoded-holds name (err e) c u h q = absurd (ground (arith, q e refl))
  create_encoded-holds name (panic why) c u h q = absurd (ground arith)
  create_encoded-holds name (ok b) c u h q = elim (Option-cases (ks.create name b c.store).1) [
    | inl m ↦ ground (arith, law.create_ok c.store name b name m, text_beq_iff name name)
    | inr (e, m) ↦ ground (
      arith,
      law.create_fails c.store name b name e m,
      tolerated-exists e,
      exists_law c.store name b e u m,
    )
  ]

  create_predefined-keeps :
      (w : World) (name : Text) (c : KeyCache S) (key : Result SecretKey) (hmac : Result HmacKey)
      (j : Text)
      → Held c j
      → Held (create_predefined ks l admin w name c key hmac).0 j
  unfolding Cache.create
  create_predefined-keeps w name c (panic why) hmac j h = h
  create_predefined-keeps w name c (err e) hmac j h = h
  create_predefined-keeps w name c (ok key) (panic why) j h = h
  create_predefined-keeps w name c (ok key) (err e) j h = h
  create_predefined-keeps w name c (ok key) (ok hmac) j h =
      create_encoded-keeps name
        (encode_key_version l.codec
          (record { key = key; hmac_key = hmac; created_at = w.now; created_by = admin }))
        c j h

  create_predefined-usable :
      (w : World) (name : Text) (c : KeyCache S) (key : Result SecretKey) (hmac : Result HmacKey)
      → Usable c.store
      → Usable (create_predefined ks l admin w name c key hmac).0.store
  unfolding Cache.create
  create_predefined-usable w name c (panic why) hmac u = u
  create_predefined-usable w name c (err e) hmac u = u
  create_predefined-usable w name c (ok key) (panic why) u = u
  create_predefined-usable w name c (ok key) (err e) u = u
  create_predefined-usable w name c (ok key) (ok hmac) u =
      create_encoded-usable name
        (encode_key_version l.codec
          (record { key = key; hmac_key = hmac; created_at = w.now; created_by = admin }))
        c u

  create_predefined-holds :
      (w : World) (name : Text) (c : KeyCache S) (key : Result SecretKey) (hmac : Result HmacKey)
      → Usable c.store
      → (create_predefined ks l admin w name c key hmac).1 ≡ ok tt
      → Held (create_predefined ks l admin w name c key hmac).0 name
  unfolding Cache.create
  create_predefined-holds w name c (panic why) hmac u h = absurd (ground arith)
  create_predefined-holds w name c (err e) hmac u h = absurd (ground arith)
  create_predefined-holds w name c (ok key) (panic why) u h = absurd (ground arith)
  create_predefined-holds w name c (ok key) (err e) u h = absurd (ground arith)
  create_predefined-holds w name c (ok key) (ok hmac) u h =
      let made : KeyVersion = record {
        key = key;
        hmac_key = hmac;
        created_at = w.now;
        created_by = admin;
      } in
      create_encoded-holds name (encode_key_version l.codec made) c u h (encode_law made)

  go_on-ok :
      (p : KeyCache S × Result (Unit {0})) (rest : KeyCache S → KeyCache S × Result (Unit {0}))
      → (go_on ks l admin p rest).1 ≡ ok tt
      → (p.1 ≡ ok tt) × (go_on ks l admin p rest ≡ rest p.0)
  go_on-ok (c, ok u) rest h = (refl, refl)
  go_on-ok (c, err e) rest h = absurd (ground arith)
  go_on-ok (c, panic why) rest h = absurd (ground arith)

  go_on-keeps :
      (p : KeyCache S × Result (Unit {0})) (rest : KeyCache S → KeyCache S × Result (Unit {0}))
      (j : Text)
      → Held p.0 j
      → ((c : KeyCache S) → Held c j → Held (rest c).0 j)
      → Held (go_on ks l admin p rest).0 j
  go_on-keeps (c, ok u) rest j h k = k c h
  go_on-keeps (c, err e) rest j h k = h
  go_on-keeps (c, panic why) rest j h k = h

  -- A key that the store holds is held after the loop, whatever comes of it.
  create_predefined_keys-keeps :
      (world : ℕ → World) (i : ℕ) (names : List Text) (c : KeyCache S) (j : Text)
      → Held c j
      → Held (create_predefined_keys ks l admin world i names c).0 j
  unfolding create_predefined_keys create_one
  create_predefined_keys-keeps world i [] c j h = h
  create_predefined_keys-keeps world i (name ∷ names) c j h =
      go_on-keeps (create_one ks l admin (world i) name c) _ j
        (create_predefined-keeps (world i) name c _ _ j h)
        (λ d g. create_predefined_keys-keeps world (i + 1) names d j g)

  -- Where the loop succeeds, the store holds a value under each name, whether the key was there
  -- before or not: over a store that keeps its contract (a Create that succeeds adds the value, one
  -- that fails changes no value), from a usable state, where every Create leaves a usable state and
  -- fails with ErrKeyExists, in a usable state, only for a name that has a value, and where no key
  -- fails to be encoded with an error that the loop tolerates. A back end in which a key can exist
  -- and have no value, such as the secret of GCP that is created and gets no version, does not meet
  -- this.
  pub create_predefined_keys-held :
      (world : ℕ → World) (i : ℕ) (names : List Text) (c : KeyCache S)
      → Usable c.store
      → (create_predefined_keys ks l admin world i names c).1 ≡ ok tt
      → All
          (λ (name : Text).
            is_some (view (create_predefined_keys ks l admin world i names c).0.store name) ≡ true)
          names
  unfolding create_predefined_keys create_one
  create_predefined_keys-held world i [] c u h = tt
  create_predefined_keys-held world i (name ∷ names) c u h =
      let one = create_one ks l admin (world i) name c in
      let next = create_predefined_keys ks l admin world (i + 1) names in
      let (made, same) = go_on-ok one next h in
      let held = create_predefined-holds (world i) name c _ _ u made in
      subst
        (λ (p : KeyCache S × Result (Unit {0})).
          All (λ (j : Text). is_some (view p.0.store j) ≡ true) (name ∷ names))
        (sym same)
        (
          create_predefined_keys-keeps world (i + 1) names one.0 name held,
          create_predefined_keys-held world (i + 1) names one.0
              (create_predefined-usable (world i) name c _ _ u)
              (ap (λ (p : KeyCache S × Result (Unit {0})). p.1) (sym same) ∙ h),
        )
