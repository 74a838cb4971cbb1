-- ===== src/KeyStore/Vault/Operations.antt =====
-- internal/keystore/vault/vault.go: the methods of the key store at a Hashicorp Vault server.
use kes.Prelude.{
  ℕ, ◌^◌, ◌*◌, not, Option, none, some, List, [], ◌∷◌, ◌++◌, take, ℤ, Text, codes, has_prefix,
  if◌then◌else◌, text_eq, nat_eq,
}
use kes.Api.Errors.{Error, Result, ok, err, panic, plain, message, unreachable, key_not_found}
use kes.KeyStore.Interface.{KeyStoreState}
use kes.KeyStore.Remote.{
  Run, ◌>>=◌, ◌>>◌, lift, give, on_error, guard, fail_first, failure, is_context_error,
}
use kes.KeyStore.Listing
use kes.KeyStore.Vault.{
  Health, Sdk, Library, Store, err_sealed, nil_pointer, is_v2, transit_prefix, location,
  create_failed, encrypt_failed, read_failed, decrypt_failed,
}
use kes.KeyStore.Vault.Responses.{
  map_err, existing, ciphertext_in, plaintext_in, accepted, entry_of,
}
use kes.KeyStore.Json.{Value, null, text, array, Fields, field, end, find, texts_of}
use kes.Conf.Backends.{VaultConfig}
use kes.Conf.File.{VaultTransit}

-- The path of an endpoint of the transit engine.
abbrev pub transit_path : Library → VaultTransit → Text → Text
transit_path lib t action = codes "/v1/" ++ lib.join (t.engine ∷ action ∷ t.key_name ∷ [])

module _ (lib : Library) {S : Type 0} (sdk : Sdk S) where
  -- s.client.Sealed(); the client of a Store without one is a nil pointer.
  abbrev pub check_sealed : Store → Run S (Unit {0})
  check_sealed s = if s.connected then guard (not s.sealed) err_sealed else lift nil_pointer

  -- value, encrypted where there is a transit engine.
  unfoldable pub encrypt_value : Text → Option VaultTransit → Text → Run S Text
  encrypt_value place none value = give value
  encrypt_value place (some t) value = do
    resp ←
        on_error
          (sdk.request (codes "POST") (transit_path lib t (codes "encrypt"))
            (field (codes "plaintext") (text (lib.base64_encode value)) end))
          (encrypt_failed lib place)
    lift (ciphertext_in lib place resp)

  -- The PUT request of Create.
  unfoldable pub put_entry : Text → VaultConfig → Text → Text → Run S (Unit {0})
  put_entry place c name value = do
    resp ←
        on_error (sdk.request (codes "PUT") (codes "/v1/" ++ place) (entry_of c name value))
          (create_failed lib place)
    lift (accepted lib place resp)

  unfoldable pub create : Store → Text → Text → Run S (Unit {0})
  create s name value = do
    guard s.connected (failure "vault: no connection to %s" (s.config.endpoint ∷ []))
    guard (not s.sealed) err_sealed
    secret ←
        on_error (sdk.read (location lib s.config name))
          (create_failed lib (location lib s.config name))
    fail_first (existing lib s.config name secret)
    stored ← encrypt_value (location lib s.config name) s.config.transit value
    put_entry (location lib s.config name) s.config name stored

  -- What Get makes of the answer of the SDK.
  abbrev pub entry_found : Text → Result (Option Fields) → Result Fields
  entry_found place (ok (some fields)) = ok fields
  entry_found place (ok none) = err (Error.sdk key_not_found)
  entry_found place (err e) =
      err (if lib.is_secret_not_found e then Error.sdk key_not_found else read_failed lib place e)
  entry_found place (panic why) = panic why

  abbrev pub no_secret : Text → Error
  no_secret place =
      failure "vault: failed to read '%s': entry exists but no secret key is present" (place ∷ [])

  abbrev pub value_found : Text → Option Value → Result Text
  value_found place none = err (no_secret place)
  value_found place (some null) = err (no_secret place)
  value_found place (some (text v)) = ok v
  value_found place (some v) =
      err (failure "vault: failed to read '%s': invalid K/V format" (place ∷ []))

  abbrev pub get_entry : VaultConfig → Text → Run S Fields
  get_entry c place s =
      let (t, found) =
        (if is_v2 c
          then sdk.kv2_get_version c.engine place 1 s
          else sdk.kv1_get c.engine place s) in
      (t, entry_found place found)

  unfoldable pub decrypt_value : Text → Option VaultTransit → Text → Run S Text
  decrypt_value place none value = lift (
      err (
        failure "vault: failed to read '%s': key is encrypted with vault transit key" (place ∷ [])))
  decrypt_value place (some t) value = do
    resp ←
        on_error
          (sdk.request (codes "POST") (transit_path lib t (codes "decrypt"))
            (field (codes "ciphertext") (text value) end))
          (decrypt_failed lib place)
    lift (plaintext_in lib place resp)

  abbrev pub opened : Text → Option VaultTransit → Text → Run S Text
  opened place transit value =
      if has_prefix transit_prefix value then decrypt_value place transit value else give value

  unfoldable pub get : Store → Text → Run S Text
  get s name = do
    check_sealed s
    fields ← get_entry s.config (lib.join (s.config.prefix ∷ name ∷ []))
    value ← lift (value_found (lib.join (s.config.prefix ∷ name ∷ [])) (find name fields))
    opened (lib.join (s.config.prefix ∷ name ∷ [])) s.config.transit value

  unfoldable pub delete : Store → Text → Run S (Unit {0})
  delete s name = do
    check_sealed s
    on_error
        (if is_v2 s.config
          then sdk.kv2_delete_metadata s.config.engine (lib.join (s.config.prefix ∷ name ∷ []))
          else sdk.kv1_delete s.config.engine (lib.join (s.config.prefix ∷ name ∷ [])))
        (λ e.
          failure "vault: failed to delete '%s': %v"
            (lib.join (s.config.prefix ∷ name ∷ []) ∷ lib.error_text e ∷ []))

  abbrev pub list_failed : Text → Error → Error
  list_failed place e = failure "vault: failed to list '%s': %v" (place ∷ lib.error_text e ∷ [])

  abbrev pub listed : Text → Text → ℤ → Option Fields → Result (List Text × Text)
  listed place prefix n none = ok ([], [])
  listed place prefix n (some fields) = elim (find (codes "keys") fields) [
    | some (array values) ↦ ok (Listing.list (texts_of lib.show values) prefix n)
    | other ↦ err (failure "vault: failed to list '%s': invalid key listing format" (place ∷ []))
  ]

  abbrev pub list_location : VaultConfig → Text
  list_location c =
      if is_v2 c
      then lib.join (c.engine ∷ codes "metadata" ∷ c.prefix ∷ [])
      else lib.join (c.engine ∷ c.prefix ∷ [])

  -- 32 * mem.MiB
  abbrev pub max_body : ℕ
  max_body = 32 * 2 ^ 20

  unfoldable pub list : Store → Text → ℤ → Run S (List Text × Text)
  list s prefix n = do
    check_sealed s
    body ← on_error (sdk.read_list (list_location s.config)) (list_failed (list_location s.config))
    secret ←
        lift
          (map_err (list_failed (list_location s.config)) (lib.parse_secret (take max_body body)))
    lift (listed (list_location s.config) prefix n secret)

  abbrev pub health_state : ℕ → Result Health → Result KeyStoreState
  health_state latency (ok health) =
      if not health.initialized
      then err (unreachable (plain (message "vault: not initialized")))
      else if health.sealed
      then err (unreachable err_sealed)
      else ok (record { latency = latency })
  health_state latency (err e) = err (if is_context_error e then unreachable e else e)
  health_state latency (panic why) = panic why

  unfoldable pub status : ℕ → Run S KeyStoreState
  status latency = do
    fail_first sdk.clone_with_headers
    λ s. let (t, found) = sdk.health s in (t, health_state latency found)
