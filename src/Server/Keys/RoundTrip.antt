-- ===== src/Server/Keys/RoundTrip.antt =====
-- What decryptKey answers to what encryptKey answered.
use kes.Prelude.{◌≡◌, refl, true, false, Option, [], ◌∷◌, length, take, Text, text_eq}
use kes.Api.Errors.{ok}
use kes.Auth.Names.{valid_name}
use kes.Auth.Requests.{Request}
use kes.Crypto.Keys.{KeyVersion}
use kes.Crypto.Cipher.{Aead, encrypt, decrypt, new_aead}
use kes.Crypto.Cipher.RoundTrip.{IsAead, looks_legacy, decrypt-encrypt}
use kes.KeyStore.Interface.{KeyStore}
use kes.KeyStore.Cache
use kes.KeyStore.Cache.Coherence.{Coherent}
use kes.KeyStore.Cache.Repeats.{get-get}
use kes.Server.State.{ServerState, reply_with, encrypt_key_body, decrypt_key_body, Handled}
use kes.Server.Keys.{Libraries, World, EncryptKeyRequest, DecryptKeyRequest, with_key, with_keys}
use kes.Server.Keys.Uses.{encrypt_key, decrypt_key}

module _ {S : Type 0} (ks : KeyStore S) (view : S → Text → Option Text) (l : Libraries)
    (w : World) where
  -- with_key, once the call of the cache is known.
  with_key-found :
      (st : ServerState S) (req : Request) (k : ServerState S → KeyVersion → Handled S)
      (key : KeyVersion)
      → (Cache.get ks l.codec req.resource st.keys).1 ≡ ok key
      → with_key ks l w st req k
        ≡ k (with_keys ks l w st (Cache.get ks l.codec req.resource st.keys).0) key
  unfolding with_key kes.Server.State.on_ok
  with_key-found st req k key h = rw h refl

  encrypt_key-found :
      (st : ServerState S) (req : Request) (enc : EncryptKeyRequest) (key : KeyVersion)
      (ciphertext : Text)
      → valid_name req.resource ≡ true
      → l.decoder.encrypt_key req.http ≡ ok enc
      → (Cache.get ks l.codec req.resource st.keys).1 ≡ ok key
      → encrypt l.primitives key.key w.first_random enc.plaintext enc.context ≡ ok ciphertext
      → encrypt_key ks l w st req ≡ (
        with_keys ks l w st (Cache.get ks l.codec req.resource st.keys).0,
        reply_with 200 (encrypt_key_body ciphertext) ∷ [],
      )
  unfolding encrypt_key kes.Server.State.on_ok
  encrypt_key-found st req enc key ciphertext v d g e =
      rw (v, d) (rw (with_key-found st req _ key g) (rw e refl))

  decrypt_key-found :
      (st : ServerState S) (req : Request) (dec : DecryptKeyRequest) (key : KeyVersion)
      (plaintext : Text)
      → valid_name req.resource ≡ true
      → l.decoder.decrypt_key req.http ≡ ok dec
      → (Cache.get ks l.codec req.resource st.keys).1 ≡ ok key
      → decrypt l.primitives l.readers key.key dec.ciphertext dec.context ≡ ok plaintext
      → decrypt_key ks l w st req ≡ (
        with_keys ks l w st (Cache.get ks l.codec req.resource st.keys).0,
        reply_with 200 (decrypt_key_body plaintext) ∷ [],
      )
  unfolding decrypt_key kes.Server.State.on_ok
  decrypt_key-found st req dec key plaintext v d g e =
      rw (v, d) (rw (with_key-found st req _ key g) (rw e refl))

  -- A client that encrypts under a valid name of a key which the cache can get, and then sends the
  -- ciphertext back with the same name and context, receives the plaintext. The cache is coherent
  -- before, the random source gives 28 bytes, the cipher is an AEAD, the encryption succeeds, the
  -- ciphertext does not begin like one of a previous format, and the bodies decode to the requests.
  pub decrypt_key-encrypt_key :
      (st : ServerState S) (req req' : Request) (enc : EncryptKeyRequest) (key : KeyVersion)
      (bytes ciphertext : Text) (aead : Aead)
      → Coherent view l.codec st.keys
      → valid_name req.resource ≡ true
      → req'.resource ≡ req.resource
      → l.decoder.encrypt_key req.http ≡ ok enc
      → l.decoder.decrypt_key req'.http
        ≡ ok (record { ciphertext = ciphertext; context = enc.context })
      → (Cache.get ks l.codec req.resource st.keys).1 ≡ ok key
      → w.first_random ≡ ok bytes
      → length bytes ≡ 28
      → new_aead l.primitives key.key (take 16 bytes) ≡ ok aead
      → IsAead aead
      → encrypt l.primitives key.key (ok bytes) enc.plaintext enc.context ≡ ok ciphertext
      → looks_legacy ciphertext ≡ false
      → ((encrypt_key ks l w st req).1 ≡ reply_with 200 (encrypt_key_body ciphertext) ∷ [])
        × ((decrypt_key ks l w (encrypt_key ks l w st req).0 req').1
            ≡ reply_with 200 (decrypt_key_body enc.plaintext) ∷ [])
  decrypt_key-encrypt_key st req req' enc key bytes ciphertext aead co v n d d' g r len a law e
        legacy =
      let e' : encrypt l.primitives key.key w.first_random enc.plaintext enc.context
          ≡ ok ciphertext =
        rw r e in
      let sent = encrypt_key-found st req enc key ciphertext v d g e' in
      let st' = with_keys ks l w st (Cache.get ks l.codec req.resource st.keys).0 in
      let again : (Cache.get ks l.codec req'.resource st'.keys).1 ≡ ok key =
        rw n (get-get ks view l.codec req.resource key st.keys co g).0 in
      let opened =
        decrypt-encrypt l.primitives l.readers key.key bytes enc.plaintext enc.context ciphertext
          aead len a law e legacy in
      (
        rw sent refl,
        rw sent (rw (decrypt_key-found st' req' _ key enc.plaintext (rw n v) d' again opened) refl),
      )
