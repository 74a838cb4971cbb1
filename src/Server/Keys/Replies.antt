-- ===== src/Server/Keys/Replies.antt =====
-- How many responses the handlers for keys send.
use kes.Prelude.{
  ℕ, ◌≡◌, refl, inl, inr, true, none, List, [], ◌∷◌, ◌==◌, Bool-cases, Option-cases, negsuc, length,
  text_eq,
}
use kes.Api.Errors.{Error, Result, ok, err, panic, Message, message, is_error}
use kes.Auth.Names.{valid_name, valid_pattern}
use kes.Auth.Requests.{Request}
use kes.Crypto.Keys.{SecretKey, HmacKey, KeyVersion, has_hmac_key, secret_key_size}
use kes.KeyStore.Interface.{KeyStore}
use kes.KeyStore.Cache
use kes.Server.State.{ServerState, list_keys_body, Reply, reply_with, fail, Handled, fail_or, on_ok}
use kes.Server.Keys.{
  Libraries, World, list_prefix, list_reply, list_keys, not_acceptable, with_key, store_key,
  create_key, import_key, describe_key, delete_key,
}
use kes.Server.Keys.Uses.{encrypt_key, generate_key, decrypt_key, hmac_key}

-- One response is sent.
abbrev One : {S : Type 0} → Handled S → Type 0
One h = length h.1 ≡ 1

fail_or-One : (e : Error) (code : ℕ) (msg : Message) → length (fail_or e code msg) ≡ 1
unfolding fail_or
fail_or-One e code msg = elim (Option-cases (is_error e)) [
  | inl n ↦ rw (length, n) refl
  | inr (a, s) ↦ rw (length, s) refl
]

on_ok-One {ℓ} :
    {S : Type 0} {A : Type ℓ} (st : ServerState S) (r : Result A) (refuse : Error → List Reply)
    (k : A → Handled S)
    → ((e : Error) → length (refuse e) ≡ 1)
    → ((a : A) → One (k a))
    → One (on_ok st r refuse k)
unfolding on_ok
on_ok-One st (ok a) refuse k e h = h a
on_ok-One st (err f) refuse k e h = e f
on_ok-One st (panic m) refuse k e h = refl

not_acceptable-One :
    {S : Type 0} (ks : KeyStore S) (l : Libraries) (w : World) (e : Error)
    → length (not_acceptable ks l w e) ≡ 1
not_acceptable-One ks l w (Error.plain m) = refl
not_acceptable-One ks l w e = refl

module _ {S : Type 0} (ks : KeyStore S) (l : Libraries) (w : World) where
  with_key-One :
      (st : ServerState S) (req : Request) (k : ServerState S → KeyVersion → Handled S)
      → ((st' : ServerState S) (key : KeyVersion) → One (k st' key))
      → One (with_key ks l w st req k)
  unfolding with_key
  with_key-One st req k h = on_ok-One _ _ _ _ (λ e. fail_or-One e _ _) (h _)

  store_key-One :
      (st : ServerState S) (req : Request) (key : SecretKey) (hmac : HmacKey)
      → One (store_key ks l w st req key hmac)
  unfolding store_key
  store_key-One st req key hmac = on_ok-One _ _ _ _ (λ e. fail_or-One e _ _) (λ a. refl)

  create_key-One : (st : ServerState S) (req : Request) → One (create_key ks l w st req)
  unfolding create_key
  create_key-One st req = elim (Bool-cases (valid_name req.resource)) [
    | inr v ↦ rw (length, v) refl
    | inl v ↦
        rw (length, v)
          (on_ok-One _ _ _ _ (λ e. refl)
            (λ key. on_ok-One _ _ _ _ (λ e. refl) (λ hmac. store_key-One st req key hmac)))
  ]

  import_key-One : (st : ServerState S) (req : Request) → One (import_key ks l w st req)
  unfolding import_key
  import_key-One st req = elim (Bool-cases (valid_name req.resource)) [
    | inr v ↦ rw (length, v) refl
    | inl v ↦
        rw (length, v)
          (on_ok-One _ _ _ _ (λ e. fail_or-One e _ _)
            (λ imp. on_ok-One _ _ _ _ (not_acceptable-One ks l w) (λ cipher.
              elim (Bool-cases (length imp.bytes == secret_key_size)) [
                | inr n ↦ rw (length, n) refl
                | inl n ↦
                    rw (length, n)
                      (on_ok-One _ _ _ _ (λ e. refl)
                        (λ key.
                          on_ok-One _ _ _ _ (λ e. refl) (λ hmac. store_key-One st req key hmac)))
              ])))
  ]

  describe_key-One : (st : ServerState S) (req : Request) → One (describe_key ks l w st req)
  unfolding describe_key
  describe_key-One st req = elim (Bool-cases (valid_name req.resource)) [
    | inr v ↦ rw (length, v) refl
    | inl v ↦ rw (length, v) (with_key-One _ _ _ (λ st' key. refl))
  ]

  delete_key-One : (st : ServerState S) (req : Request) → One (delete_key ks l w st req)
  unfolding delete_key
  delete_key-One st req = elim (Bool-cases (valid_name req.resource)) [
    | inr v ↦ rw (length, v) refl
    | inl v ↦
        rw (length, v)
          (elim (Option-cases (Cache.delete ks req.resource st.keys).1) [
            | inl n ↦ rw n refl
            | inr (e, s) ↦ rw s (fail_or-One e _ _)
          ])
  ]

  encrypt_key-One : (st : ServerState S) (req : Request) → One (encrypt_key ks l w st req)
  unfolding encrypt_key
  encrypt_key-One st req = elim (Bool-cases (valid_name req.resource)) [
    | inr v ↦ rw (length, v) refl
    | inl v ↦
        rw (length, v)
          (on_ok-One _ _ _ _ (λ e. fail_or-One e _ _)
            (λ enc. with_key-One _ _ _ (λ st' key. on_ok-One _ _ _ _ (λ e. refl) (λ c. refl))))
  ]

  generate_key-One : (st : ServerState S) (req : Request) → One (generate_key ks l w st req)
  unfolding generate_key
  generate_key-One st req = elim (Bool-cases (valid_name req.resource)) [
    | inr v ↦ rw (length, v) refl
    | inl v ↦
        rw (length, v)
          (on_ok-One _ _ _ _ (λ e. fail_or-One e _ _)
            (λ context. with_key-One _ _ _ (λ st' key.
              on_ok-One _ _ _ _ (λ e. refl) (λ d. on_ok-One _ _ _ _ (λ e. refl) (λ c. refl)))))
  ]

  decrypt_key-One : (st : ServerState S) (req : Request) → One (decrypt_key ks l w st req)
  unfolding decrypt_key
  decrypt_key-One st req = elim (Bool-cases (valid_name req.resource)) [
    | inr v ↦ rw (length, v) refl
    | inl v ↦
        rw (length, v)
          (on_ok-One _ _ _ _ (λ e. fail_or-One e _ _)
            (λ dec.
              with_key-One _ _ _
                (λ st' key. on_ok-One _ _ _ _ (λ e. fail_or-One e _ _) (λ c. refl))))
  ]

  hmac_key-One : (st : ServerState S) (req : Request) → One (hmac_key ks l w st req)
  unfolding hmac_key
  hmac_key-One st req = elim (Bool-cases (valid_name req.resource)) [
    | inr v ↦ rw (length, v) refl
    | inl v ↦
        rw (length, v)
          (on_ok-One _ _ _ _ (λ e. fail_or-One e _ _)
            (λ msg. with_key-One _ _ _ (λ st' key. elim (Bool-cases (has_hmac_key key)) [
              | inr n ↦ rw (length, n) refl
              | inl n ↦ rw (length, n) (on_ok-One _ _ _ _ (λ e. fail_or-One e _ _) (λ c. refl))
            ])))
  ]

  -- Whatever the request, the key store and the random source, every handler that takes the name of
  -- a key gives exactly one response, where a panic counts as one.
  pub one_reply :
      (st : ServerState S) (req : Request)
      → (length (create_key ks l w st req).1 ≡ 1)
        × (length (import_key ks l w st req).1 ≡ 1)
        × (length (describe_key ks l w st req).1 ≡ 1)
        × (length (delete_key ks l w st req).1 ≡ 1)
        × (length (encrypt_key ks l w st req).1 ≡ 1)
        × (length (generate_key ks l w st req).1 ≡ 1)
        × (length (decrypt_key ks l w st req).1 ≡ 1)
        × (length (hmac_key ks l w st req).1 ≡ 1)
  one_reply st req = (
    create_key-One st req,
    import_key-One st req,
    describe_key-One st req,
    delete_key-One st req,
    encrypt_key-One st req,
    generate_key-One st req,
    decrypt_key-One st req,
    hmac_key-One st req,
  )

  -- If the key store fails a listing with an error that is not one of the API, listKeys sends two
  -- responses: the 502, and a 200 with no names.
  pub list_keys-twice :
      (st : ServerState S) (req : Request) (e : Error)
      → valid_pattern req.resource ≡ true
      → (Cache.list ks (list_prefix ks l w req.resource) (negsuc 0) st.keys).1 ≡ err e
      → is_error e ≡ none
      → (list_keys ks l w st req).1
        ≡ fail 502 (message "failed to list keys") ∷ reply_with 200 (list_keys_body [] []) ∷ []
  unfolding list_keys list_reply
  list_keys-twice st req e v f n = rw (v, f) (rw (list_reply, n) refl)
