-- ===== src/Server/Keys/Refusals.antt =====
-- What the handlers for keys refuse before they do anything.
use kes.Prelude.{◌≡◌, refl, true, false, [], ◌∷◌, text_eq}
use kes.Api.Errors.{message, unreachable, plain}
use kes.Auth.Names.{valid_name}
use kes.Auth.Requests.{Request}
use kes.KeyStore.Interface.{KeyStore}
use kes.KeyStore.Cache
use kes.Server.State.{ServerState, fail, invalid_name}
use kes.Server.Keys.{
  Libraries, World, key_format, list_format, create_key, import_key, describe_key, list_keys,
  delete_key,
}
use kes.Server.Keys.Uses.{encrypt_key, generate_key, decrypt_key, hmac_key, ready}

module _ {S : Type 0} (ks : KeyStore S) (l : Libraries) (w : World) where
  -- If the name in a request is not a valid one, every handler that takes the name of a key sends
  -- the one response 400 and leaves the state, the key store and the audit log as they were.
  pub invalid_names :
      (st : ServerState S) (req : Request)
      → valid_name req.resource ≡ false
      → (create_key ks l w st req ≡ (st, invalid_name key_format req.resource))
        × (import_key ks l w st req ≡ (st, invalid_name key_format req.resource))
        × (describe_key ks l w st req ≡ (st, invalid_name key_format req.resource))
        × (delete_key ks l w st req ≡ (st, invalid_name key_format req.resource))
        × (encrypt_key ks l w st req ≡ (st, invalid_name key_format req.resource))
        × (generate_key ks l w st req ≡ (st, invalid_name key_format req.resource))
        × (decrypt_key ks l w st req ≡ (st, invalid_name key_format req.resource))
        × (hmac_key ks l w st req ≡ (st, invalid_name key_format req.resource))
  unfolding create_key import_key describe_key delete_key encrypt_key generate_key decrypt_key
      hmac_key
  invalid_names st req h =
      (rw h refl, rw h refl, rw h refl, rw h refl, rw h refl, rw h refl, rw h refl, rw h refl)

  -- While the key cache is offline, ready sends 504 and does not call the key store.
  pub ready-offline :
      (st : ServerState S) (req : Request)
      → st.keys.offline ≡ true
      → ready ks st req ≡ (st, fail 504 (message "key store is not reachable") ∷ [])
  unfolding ready Cache.status kes.Server.Keys.Uses.ready_reply kes.Api.Errors.is_unreachable
  ready-offline st req h = rw h refl
