-- ===== src/KeyStore/Vault.antt =====
-- internal/keystore/vault/vault.go: the key store at a Hashicorp Vault server. The Vault SDK, path.Join
-- and base64 are parameters; the state is what the calls of the SDK read and change.
pub mod Responses
pub mod Answers
pub mod Operations
pub mod Connect
pub mod Contract
pub mod Renewal
use kes.Prelude.{
  ℕ, Bool, Option, List, [], ◌∷◌, ◌==◌, Text, codes, text_beq, if◌then◌else◌, text_eq, nat_eq,
  arith,
}
use kes.Api.Errors.{Error, Result, panic, plain, message}
use kes.KeyStore.Remote.{Run, failure}
use kes.KeyStore.Listing
use kes.KeyStore.Json.{Value, Fields}
use kes.Conf.Backends.{VaultConfig}

pub record RawResponse : Type 0 where
  pub status_code : ℕ
  pub status : Text
  pub body : Text

pub record Health : Type 0 where
  pub initialized : Bool
  pub sealed : Bool

-- The SDK: `read` is Logical().Read, whose secret is nil or has data; `request` is NewRequest,
-- SetJSONBody and RawRequest for a method and a path.
pub record Sdk (S : Type 0) : Type 0 where
  pub read : Text → Run S (Option Fields)
  pub request : Text → Text → Fields → Run S RawResponse
  pub read_list : Text → Run S Text
  pub kv1_get : Text → Text → Run S (Option Fields)
  pub kv2_get_version : Text → Text → ℕ → Run S (Option Fields)
  pub kv1_delete : Text → Text → Run S (Unit {0})
  pub kv2_delete_metadata : Text → Text → Run S (Unit {0})
  pub clone_with_headers : Option Error
  pub health : Run S Health

pub record Library : Type 0 where
  -- vaultapi.ParseSecret; an empty body has no secret and no error.
  pub parse_secret : Text → Result (Option Fields)
  pub is_secret_not_found : Error → Bool
  pub join : List Text → Text
  pub base64_encode : Text → Text
  pub base64_decode : Text → Result Text
  pub error_text : Error → Text
  pub decimal : ℕ → Text
  -- fmt.Sprint
  pub show : Value → Text

-- vault.Store: its client with the flag that CheckStatus keeps, or nil, and its config.
pub record Store : Type 0 where
  pub connected : Bool
  pub sealed : Bool
  pub config : VaultConfig

abbrev pub err_sealed : Error
err_sealed = plain (message "vault: key store is sealed")

abbrev pub nil_pointer {ℓ} : {A : Type ℓ} → Result A
nil_pointer = panic (message "invalid memory address or nil pointer dereference")

abbrev pub api_v2 : Text
api_v2 = codes "v2"

abbrev pub is_v2 : VaultConfig → Bool
is_v2 c = text_beq c.api_version api_v2

abbrev pub transit_prefix : Text
transit_prefix = codes "vault:v1:"

abbrev pub is_ok : ℕ → Bool
is_ok code = code == 200

module _ (lib : Library) where
  abbrev pub location : VaultConfig → Text → Text
  location c name =
      if is_v2 c
      then lib.join (c.engine ∷ codes "data" ∷ c.prefix ∷ name ∷ [])
      else lib.join (c.engine ∷ c.prefix ∷ name ∷ [])

  abbrev pub create_failed : Text → Error → Error
  create_failed place e = failure "vault: failed to create '%s': %v" (place ∷ lib.error_text e ∷ [])

  abbrev pub encrypt_failed : Text → Error → Error
  encrypt_failed place e =
      failure "vault: failed to create '%s': failed to encrypt key: %v"
        (place ∷ lib.error_text e ∷ [])

  abbrev pub read_failed : Text → Error → Error
  read_failed place e = failure "vault: failed to read '%s': %v" (place ∷ lib.error_text e ∷ [])

  abbrev pub decrypt_failed : Text → Error → Error
  decrypt_failed place e =
      failure "vault: failed to read '%s': failed to decrypt key: %v"
        (place ∷ lib.error_text e ∷ [])
