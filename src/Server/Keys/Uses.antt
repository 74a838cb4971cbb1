-- ===== src/Server/Keys/Uses.antt =====
-- The handlers of server.go that use a stored key, and the readiness of the key store.
use kes.Prelude.{not, none, some, List, [], ◌∷◌, if◌then◌else◌, is_positive, Text, text_eq}
use kes.Api.Errors.{Result, ok, err, panic, message, is_unreachable}
use kes.Auth.Names.{valid_name}
use kes.Auth.Requests.{Request}
use kes.Crypto.Keys.{has_hmac_key, sum}
use kes.Crypto.Cipher.{encrypt, decrypt}
use kes.KeyStore.Interface.{KeyStore, KeyStoreState}
use kes.KeyStore.Cache
use kes.Server.State.{
  ServerState, encrypt_key_body, generate_key_body, decrypt_key_body, hmac_body, Reply, reply,
  reply_with, fail, crash, Handled, on_ok, invalid_name,
}
use kes.Server.Keys.{Libraries, World, key_format, always, api_error_or, with_key}

module _ {S : Type 0} (ks : KeyStore S) (l : Libraries) (w : World) where
  unfoldable pub encrypt_key : ServerState S → Request → Handled S
  encrypt_key st req =
      if not (valid_name req.resource)
      then (st, invalid_name key_format req.resource)
      else on_ok st (l.decoder.encrypt_key req.http)
          (api_error_or ks l w 400 "invalid request body")
          λ enc. with_key ks l w st req λ st' key.
            on_ok st' (encrypt l.primitives key.key w.first_random enc.plaintext enc.context)
              (always ks l w 500 "failed to encrypt plaintext")
              λ ciphertext. (st', reply_with 200 (encrypt_key_body ciphertext) ∷ [])

  -- The context of the request, which is read only if the request has a body.
  unfoldable pub read_context : Request → Result Text
  read_context req =
      if is_positive req.http.content_length then l.decoder.generate_key req.http else ok []

  -- `first_random` is the data key, of 32 bytes.
  unfoldable pub generate_key : ServerState S → Request → Handled S
  generate_key st req =
      if not (valid_name req.resource)
      then (st, invalid_name key_format req.resource)
      else on_ok st (read_context req) (api_error_or ks l w 400 "invalid request body") λ context.
        with_key ks l w st req λ st' key.
          on_ok st' w.first_random (always ks l w 500 "failed to generate encryption key")
            λ data_key.
              on_ok st' (encrypt l.primitives key.key w.second_random data_key context)
                (always ks l w 500 "failed to generate encryption key")
                λ ciphertext. (st', reply_with 200 (generate_key_body data_key ciphertext) ∷ [])

  unfoldable pub decrypt_key : ServerState S → Request → Handled S
  decrypt_key st req =
      if not (valid_name req.resource)
      then (st, invalid_name key_format req.resource)
      else on_ok st (l.decoder.decrypt_key req.http)
          (api_error_or ks l w 400 "invalid request body")
          λ enc. with_key ks l w st req λ st' key.
            on_ok st' (decrypt l.primitives l.readers key.key enc.ciphertext enc.context)
              (api_error_or ks l w 500 "failed to decrypt ciphertext")
              λ plaintext. (st', reply_with 200 (decrypt_key_body plaintext) ∷ [])

  unfoldable pub hmac_key : ServerState S → Request → Handled S
  hmac_key st req =
      if not (valid_name req.resource)
      then (st, invalid_name key_format req.resource)
      else on_ok st (l.decoder.hmac req.http) (api_error_or ks l w 400 "invalid request body")
          λ msg. with_key ks l w st req λ st' key.
            if not (has_hmac_key key)
            then (st', fail 409 (message "key does not support HMAC") ∷ [])
            else on_ok st' (sum l.primitives.hmac_sha256 key.hmac_key msg)
                (api_error_or ks l w 500 "") λ s. (st', reply_with 200 (hmac_body s) ∷ [])

-- What ready sends for the status of the key store.
unfoldable pub ready_reply : Result KeyStoreState → List Reply
ready_reply (ok status) = reply 200 ∷ []
ready_reply (panic m) = crash m ∷ []
ready_reply (err e) = elim (is_unreachable e) [
  | some _ ↦ fail 504 (message "key store is not reachable") ∷ []
  | none ↦ fail 502 (message "key store is unavailable") ∷ []
]

unfoldable pub ready : {S : Type 0} → KeyStore S → ServerState S → Request → Handled S
ready ks st req =
    let (keys, r) = Cache.status ks st.keys in (record st { keys = keys }, ready_reply r)
