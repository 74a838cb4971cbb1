-- ===== src/KeyStore/Vault/Responses.antt =====
-- internal/keystore/vault/vault.go: what the key store makes of the responses of a Vault server.
use kes.Prelude.{
  not, ◌||◌, Option, none, some, [], ◌∷◌, ◌==◌, Text, codes, has_prefix, if◌then◌else◌, text_eq,
  nat_eq,
}
use kes.Api.Errors.{Error, Result, ok, err, panic, ◌>>=◌, sdk, key_exists}
use kes.KeyStore.Remote.{failure}
use kes.KeyStore.Vault.{
  RawResponse, Library, nil_pointer, is_v2, transit_prefix, is_ok, location, create_failed,
  encrypt_failed, decrypt_failed,
}
use kes.KeyStore.Json.{Value, null, text, number, object, field, Fields, end, find, size_of}
use kes.Conf.Backends.{VaultConfig}

abbrev pub map_err {ℓ} : {A : Type ℓ} → (Error → Error) → Result A → Result A
map_err f (ok x) = ok x
map_err f (err e) = err (f e)
map_err f (panic why) = panic why

-- The two first cases of the switch in Create; `none` goes on to create the key.
abbrev pub existing_v1 : Text → Text → Fields → Option Error
existing_v1 place name fields = elim (find name fields) [
  | none ↦
      some
        (failure "vault: entry exist but failed to read '%s': invalid K/V v1 format" (place ∷ []))
  | some v ↦ some (sdk key_exists)
]

abbrev pub existing_data : Text → Text → Option Value → Error
existing_data place name (some (object fields)) = elim (find name fields) [
  | none ↦
      failure "vault: failed to read '%s': entry exists but no secret key is present" (place ∷ [])
  | some v ↦ sdk key_exists
]
existing_data place name none =
    failure
      "vault: entry exists but failed to read '%s': invalid K/V v2 format: missing 'data' entry"
      (place ∷ [])
existing_data place name (some null) =
    failure
      "vault: entry exists but failed to read '%s': invalid K/V v2 format: missing 'data' entry"
      (place ∷ [])
existing_data place name (some v) =
    failure
      "vault: entry exists but failed to read '%s': invalid K/V v2 format: invalid 'data' entry"
      (place ∷ [])

-- The error for a response with another status code.
abbrev pub refused {ℓ} : {A : Type ℓ} → Error → (Error → Error) → Result (Option Fields) → Result A
refused answered unparsed (err e) = err (unparsed e)
refused answered unparsed (ok secret) = err answered
refused answered unparsed (panic why) = panic why

-- secret.Data[key], which panics for a nil secret.
abbrev pub data_entry : Text → Result (Option Fields) → Result (Option Value)
data_entry key (ok none) = nil_pointer
data_entry key (ok (some fields)) = ok (find key fields)
data_entry key (err e) = err e
data_entry key (panic why) = panic why

abbrev pub ciphertext_of : Text → Option Value → Result Text
ciphertext_of place none = err (
    failure "vault: failed to create '%s': failed to encrypt key: no ciphertext in vault response"
      (place ∷ []))
ciphertext_of place (some (text v)) =
    if has_prefix transit_prefix v
    then ok v
    else err (
        failure "vault: failed to create '%s': failed to encrypt key: invalid vault response"
          (place ∷ []))
ciphertext_of place (some v) = err (
    failure "vault: failed to create '%s': failed to encrypt key: invalid vault response"
      (place ∷ []))

-- What Create sends for the entry.
abbrev pub entry_of : VaultConfig → Text → Text → Fields
entry_of c name value =
    if is_v2 c
    then field (codes "options") (object (field (codes "cas") (number 0) end))
        (field (codes "data") (object (field name (text value) end)) end)
    else field name (text value) end

module _ (lib : Library) where
  unfoldable pub existing : VaultConfig → Text → Option Fields → Option Error
  existing c name none = none
  existing c name (some fields) =
      if not (is_v2 c)
      then existing_v1 (location lib c name) name fields
      else if size_of fields == 0
      then none
      else some (existing_data (location lib c name) name (find (codes "data") fields))

  abbrev pub responded : Text → RawResponse → Error
  responded place resp =
      failure "vault: failed to create '%s': server responded with: %s (%d)"
        (place ∷ resp.status ∷ lib.decimal resp.status_code ∷ [])

  abbrev pub read_responded : Text → RawResponse → Error
  read_responded place resp =
      failure "vault: failed to read '%s': server responded with: %s (%d)"
        (place ∷ resp.status ∷ lib.decimal resp.status_code ∷ [])

  abbrev pub plaintext_of : Text → Option Value → Result Text
  plaintext_of place none = err (
      failure "vault: failed to read '%s': failed to decrypt key: no plaintext in vault response"
        (place ∷ []))
  plaintext_of place (some (text v)) = lib.base64_decode v
  plaintext_of place (some v) = err (
      failure "vault: failed to read '%s': failed to decrypt key: invalid vault response"
        (place ∷ []))

  -- The value that Create stores, from the response of the transit engine.
  unfoldable pub ciphertext_in : Text → RawResponse → Result Text
  ciphertext_in place resp =
      if is_ok resp.status_code
      then (do
        entry ←
            data_entry (codes "ciphertext")
              (map_err (encrypt_failed lib place) (lib.parse_secret resp.body))
        ciphertext_of place entry)
      else refused (responded place resp) (encrypt_failed lib place) (lib.parse_secret resp.body)

  -- The value that Get returns, from the response of the transit engine.
  unfoldable pub plaintext_in : Text → RawResponse → Result Text
  plaintext_in place resp =
      if is_ok resp.status_code
      then (do
        entry ←
            data_entry (codes "plaintext")
              (map_err (decrypt_failed lib place) (lib.parse_secret resp.body))
        plaintext_of place entry)
      else refused (read_responded place resp)
          (λ e.
            failure "vault: failed to read '%s': failed to encrypt key: %v"
              (place ∷ lib.error_text e ∷ []))
          (lib.parse_secret resp.body)

  -- The end of Create: K/V v1 answers 204, K/V v2 answers 200.
  unfoldable pub accepted : Text → RawResponse → Result (Unit {0})
  accepted place resp =
      if resp.status_code == 204 || is_ok resp.status_code
      then ok tt
      else refused (read_responded place resp) (create_failed lib place)
          (lib.parse_secret resp.body)
