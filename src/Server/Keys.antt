-- ===== src/Server/Keys.antt =====
-- The handlers of server.go for keys.
pub mod Uses
pub mod Refusals
pub mod Replies
pub mod RoundTrip
pub mod Patterns
use kes.Prelude.{
  ℕ, ◌*◌, String, Bool, not, ◌||◌, none, some, List, [], ◌∷◌, ◌++◌, arith, ◌==◌, if◌then◌else◌,
  negsuc, length, Text, codes, text_beq, text_eq,
}
use kes.Api.Errors.{Error, Result, ok, err, panic, plain, message, is_error}
use kes.Auth.Names.{valid_name, valid_pattern}
use kes.Auth.Requests.{HttpRequest, Request}
use kes.Crypto.Keys.{
  SecretKey, HmacKey, KeyVersion, aes256, chacha20, sha256, secret_key_size,
  determine_secret_key_type, generate_secret_key, new_secret_key, generate_hmac_key,
  secret_key_type_string,
}
use kes.Crypto.Encoding.{Codec}
use kes.Crypto.Ciphertext.{Readers}
use kes.Crypto.Cipher.{Primitives}
use kes.KeyStore.Interface.{KeyStore}
use kes.KeyStore.Cache
use kes.KeyStore.Cache.{KeyCache}
use kes.Server.State.{
  ServerState, describe_key_body, list_keys_body, Reply, reply, reply_with, fail, fail_error, crash,
  Handled, fail_or, on_ok, invalid_name,
}

-- The requests of internal/api/request.go; the versions, which nothing reads, are left out.
pub record ImportKeyRequest : Type 0 where
  pub bytes : Text
  pub cipher : Text

pub record EncryptKeyRequest : Type 0 where
  pub plaintext : Text
  pub context : Text

pub record DecryptKeyRequest : Type 0 where
  pub ciphertext : Text
  pub context : Text

-- ReadBody: json.Decoder.Decode of the body of a request, up to its limit, into the request types.
pub record Decoder : Type 0 where
  pub import_key : HttpRequest → Result ImportKeyRequest
  pub encrypt_key : HttpRequest → Result EncryptKeyRequest
  -- the context of a GenerateKeyRequest
  pub generate_key : HttpRequest → Result Text
  pub decrypt_key : HttpRequest → Result DecryptKeyRequest
  -- the message of an HMACRequest
  pub hmac : HttpRequest → Result Text

-- The libraries below the handlers, and the result of cpu.HasAESGCM().
pub record Libraries : Type 0 where
  pub codec : Codec
  pub primitives : Primitives
  pub readers : Readers
  pub decoder : Decoder
  pub has_aes_gcm : Bool

-- What one call of a handler reads of the outside: rand.Reader, in the order of the reads that the
-- handler may make, and the time.
pub record World : Type 0 where
  pub first_random : Result Text
  pub second_random : Result Text
  pub now : ℕ

abbrev pub key_format : String
key_format = "key name '%s' is empty, too long or contains invalid characters"

abbrev pub list_format : String
list_format = "listing pattern '%s' is empty, too long or is invalid"

module _ {S : Type 0} (ks : KeyStore S) (l : Libraries) (w : World) where
  -- Failures with a fixed answer.
  abbrev pub always : ℕ → String → Error → List Reply
  always code msg e = fail code (message msg) ∷ []

  abbrev pub api_error_or : ℕ → String → Error → List Reply
  api_error_or code msg e = fail_or e code (message msg)

  abbrev pub with_keys : ServerState S → KeyCache S → ServerState S
  with_keys st keys = record st { keys = keys }

  abbrev pub log_audit : String → Request → ServerState S → ServerState S
  log_audit format req st = record st {
    audit =
        st.audit
        ++ record {
          what = record { format = format; args = req.resource ∷ [] };
          status_code = 200;
          request = req;
        }
          ∷ [];
  }

  -- The end of createKey and importKey.
  unfoldable pub store_key : ServerState S → Request → SecretKey → HmacKey → Handled S
  store_key st req key hmac =
      let (keys, r) =
        Cache.create ks l.codec req.resource
          (record { key = key; hmac_key = hmac; created_at = w.now; created_by = req.identity })
          st.keys in
      on_ok (with_keys st keys) r (api_error_or 502 "failed to create key")
        λ _. (log_audit "secret key '%s' created" req (with_keys st keys), reply 200 ∷ [])

  unfoldable pub create_key : ServerState S → Request → Handled S
  create_key st req =
      if not (valid_name req.resource)
      then (st, invalid_name key_format req.resource)
      else on_ok st
          (generate_secret_key (determine_secret_key_type l.primitives.fips l.has_aes_gcm)
            w.first_random)
          (always 500 "failed to generate encryption key")
          λ key.
            on_ok st (generate_hmac_key sha256 w.second_random)
              (always 500 "failed to generate encryption key") λ hmac. store_key st req key hmac

  -- The switch on the cipher of an import, with what is sent for a cipher that is not accepted.
  unfoldable pub import_cipher : Text → Result ℕ
  import_cipher cipher =
      if text_beq cipher (codes "AES256") || text_beq cipher (codes "AES256-GCM_SHA256")
      then ok aes256
      else if text_beq cipher (codes "ChaCha20") || text_beq cipher (codes "XCHACHA20-POLY1305")
      then (if l.primitives.fips
          then err (
              plain (record {
                format = "algorithm '%s' not supported by FIPS 140-2";
                args = cipher ∷ [];
              }))
          else ok chacha20)
      else err (plain (record { format = "algorithm '%s' is not supported"; args = cipher ∷ [] }))

  abbrev pub not_acceptable : Error → List Reply
  not_acceptable (plain m) = fail 406 m ∷ []
  not_acceptable e = fail 406 (message "") ∷ []

  unfoldable pub import_key : ServerState S → Request → Handled S
  import_key st req =
      if not (valid_name req.resource)
      then (st, invalid_name key_format req.resource)
      else on_ok st (l.decoder.import_key req.http)
          (api_error_or 400 "invalid import key request body")
          λ imp. on_ok st (import_cipher imp.cipher) not_acceptable λ cipher.
            if not (length imp.bytes == secret_key_size)
            then (
              st,
              fail 406 (record { format = "invalid key size for '%s'"; args = imp.cipher ∷ [] })
                  ∷ [],
            )
            else on_ok st (new_secret_key cipher imp.bytes) (always 500 "failed to create key")
                λ key.
                  on_ok st (generate_hmac_key sha256 w.first_random)
                    (always 500 "failed to create key") λ hmac. store_key st req key hmac

  -- s.state.Load().Keys.Get(req.Context(), req.Resource), and its error path.
  unfoldable pub with_key :
      ServerState S → Request → (ServerState S → KeyVersion → Handled S) → Handled S
  with_key st req k =
      let (keys, r) = Cache.get ks l.codec req.resource st.keys in
      on_ok (with_keys st keys) r (api_error_or 502 "failed to read key") (k (with_keys st keys))

  unfoldable pub describe_key : ServerState S → Request → Handled S
  describe_key st req =
      if not (valid_name req.resource)
      then (st, invalid_name key_format req.resource)
      else with_key st req λ st' key. (
        st',
        reply_with 200 (
              describe_key_body req.resource (secret_key_type_string key.key.cipher) key.created_at
                key.created_by)
            ∷ [],
      )

  -- prefix == "*" lists all keys
  unfoldable pub list_prefix : Text → Text
  list_prefix resource = if text_beq resource (b'*' ∷ []) then [] else resource

  -- The error branch that is not an api.Error does not return: the reply below follows it, with the
  -- names and the prefix that came with the error, which the stores leave empty.
  unfoldable pub list_reply : Result (List Text × Text) → List Reply
  list_reply (ok (names, prefix)) = reply_with 200 (list_keys_body names prefix) ∷ []
  list_reply (panic m) = crash m ∷ []
  list_reply (err e) = elim (is_error e) [
    | some a ↦ fail_error a ∷ []
    | none ↦ fail 502 (message "failed to list keys") ∷ reply_with 200 (list_keys_body [] []) ∷ []
  ]

  unfoldable pub list_keys : ServerState S → Request → Handled S
  list_keys st req =
      if not (valid_pattern req.resource)
      then (st, invalid_name list_format req.resource)
      else let (keys, r) = Cache.list ks (list_prefix req.resource) (negsuc 0) st.keys in
        (with_keys st keys, list_reply r)

  unfoldable pub delete_key : ServerState S → Request → Handled S
  delete_key st req =
      if not (valid_name req.resource)
      then (st, invalid_name key_format req.resource)
      else let (keys, r) = Cache.delete ks req.resource st.keys in
        elim r [
          | some e ↦ (with_keys st keys, fail_or e 502 (message "failed to delete key"))
          | none ↦ (log_audit "secret key '%s' deleted" req (with_keys st keys), reply 200 ∷ [])
        ]
