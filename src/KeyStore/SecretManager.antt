-- ===== src/KeyStore/SecretManager.antt =====
-- internal/keystore/gcp/secret-manager.go: the key store at the GCP SecretManager. The client of the
-- GCP SDK, the HTTP client of Status and path.Join are parameters.
pub mod Halfway
use kes.Prelude.{
  ℕ, Bool, Option, none, List, [], ◌∷◌, ℤ, Text, codes, if◌then◌else◌, text_eq, nat_eq, arith,
}
use kes.Api.Errors.{Error, Result, ok, err, panic, unreachable, sdk, key_exists, key_not_found}
use kes.KeyStore.Interface.{KeyStoreState}
use kes.KeyStore.Listing
use kes.KeyStore.Remote.{
  Run, and_then, give, on_error, changed, fail_first, failure, is_context_error,
}

-- The calls of the SDK. CreateSecret returns the name of the secret, to which AddSecretVersion adds;
-- `next` is iter.Next, whose `none` is iterator.Done. The codes are those of google.golang.org/grpc.
pub record Sdk (S : Type 0) : Type 0 where
  pub create_secret : Text → Text → Run S Text
  pub add_secret_version : Text → Text → Run S (Unit {0})
  pub access_secret_version : Text → Run S Text
  pub delete_secret : Text → Run S (Unit {0})
  pub names : Text → Run S (List Text)
  pub get_endpoint : Text → Run S (Unit {0})
  pub latency : ℕ
  pub new_request : Text → Option Error
  pub is_already_exists : Error → Bool
  pub is_not_found : Error → Bool
  pub join : List Text → Text
  pub base : Text → Text
  pub error_text : Error → Text

abbrev pub map_names : (Text → Text) → List Text → List Text
map_names f [] = []
map_names f (name ∷ names) = f name ∷ map_names f names

module _ {S : Type 0} (sdk : Sdk S) (project_id : Text) where
  abbrev pub parent : Text
  parent = sdk.join (codes "projects" ∷ project_id ∷ [])

  abbrev pub secret_path : Text → Text
  secret_path name = sdk.join (codes "projects" ∷ project_id ∷ codes "secrets" ∷ name ∷ [])

  abbrev pub version_path : Text → Text
  version_path name =
      sdk.join
        (codes "projects" ∷ project_id ∷ codes "secrets" ∷ name ∷ codes "versions" ∷ codes "1" ∷ [])

  abbrev pub create_failed : Text → Error → Error
  create_failed name e = failure "gcp: failed to create '%s': %v" (name ∷ sdk.error_text e ∷ [])

  abbrev pub create_error : Text → Error → Error
  create_error name e =
      if is_context_error e
      then e
      else if sdk.is_already_exists e
      then Error.sdk key_exists
      else create_failed name e

  abbrev pub version_error : Text → Error → Error
  version_error name e = if is_context_error e then e else create_failed name e

  abbrev pub get_error : Text → Error → Error
  get_error name e =
      if is_context_error e
      then e
      else if sdk.is_not_found e
      then Error.sdk key_not_found
      else failure "gcp: failed to read '%s': %v" (name ∷ sdk.error_text e ∷ [])

  abbrev pub delete_error : Text → Error → Error
  delete_error name e =
      if is_context_error e
      then e
      else if sdk.is_not_found e
      then Error.sdk key_not_found
      else failure "gcp: failed to delete '%s': %v" (name ∷ sdk.error_text e ∷ [])

  -- A secret is made first, and then its first version with the value.
  unfoldable pub create : Text → Text → Run S (Unit {0})
  create name value s =
      and_then (changed (create_error name) (sdk.create_secret parent name s))
        (λ secret. on_error (sdk.add_secret_version secret value) (version_error name))

  unfoldable pub get : Text → Run S Text
  get name s = changed (get_error name) (sdk.access_secret_version (version_path name) s)

  unfoldable pub delete : Text → Run S (Unit {0})
  delete name s = changed (delete_error name) (sdk.delete_secret (secret_path name) s)

  unfoldable pub list : Text → ℤ → Run S (List Text × Text)
  list prefix n s =
      and_then (sdk.names parent s)
        (λ names. give (Listing.list (map_names sdk.base names) prefix n))

  abbrev pub reached : S × Result (Unit {0}) → S × Result KeyStoreState
  reached (s, ok u) = (s, ok (record { latency = sdk.latency }))
  reached (s, err e) = (s, err (unreachable e))
  reached (s, panic why) = (s, panic why)

  unfoldable pub status : Text → Run S KeyStoreState
  status endpoint s =
      and_then (fail_first (sdk.new_request endpoint) s)
        (λ u t. reached (sdk.get_endpoint endpoint t))
