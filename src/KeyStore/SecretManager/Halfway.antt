-- ===== src/KeyStore/SecretManager/Halfway.antt =====
-- A Create of the GCP key store that fails between its two calls.
use kes.Prelude.{◌≡◌, refl, ◌∙◌, true, false, Option, some, List, [], Text, text_eq}
use kes.Api.Errors.{Error, ok, err, key_exists, key_not_found}
use kes.KeyStore.Remote.{is_context_error}
use kes.KeyStore.SecretManager.{Sdk, parent, version_path, version_error, create, get}

-- What is documented of the SecretManager: CreateSecret of a new secret makes one without a version,
-- which a failed AddSecretVersion does not change; it fails with AlreadyExists for a secret that is
-- there, and AccessSecretVersion with NotFound for a version that is not. `versions` are the values of
-- the versions of a secret.
pub record IsSecretManager {S : Type 0} (sdk : Sdk S) (project : Text)
    (versions : S → Text → Option (List Text)) : Type 0 where
  pub creates :
      (name secret : Text) (s t : S)
      → sdk.create_secret (parent sdk project) name s ≡ (t, ok secret)
      → versions t name ≡ some []
  pub add_fails :
      (name secret value : Text) (s t : S) (e : Error)
      → sdk.add_secret_version secret value s ≡ (t, err e)
      → versions t name ≡ versions s name
  pub exists_error : Error
  pub is_exists :
      (sdk.is_already_exists exists_error ≡ true) × (is_context_error exists_error ≡ false)
  pub refuses :
      (name : Text) (s : S) (vs : List Text)
      → versions s name ≡ some vs
      → sdk.create_secret (parent sdk project) name s ≡ (s, err exists_error)
  pub not_found_error : Error
  pub is_missing :
      (sdk.is_not_found not_found_error ≡ true) × (is_context_error not_found_error ≡ false)
  pub misses :
      (name : Text) (s : S)
      → versions s name ≡ some []
      → sdk.access_secret_version (version_path sdk project name) s ≡ (s, err not_found_error)

module _ {S : Type 0} (sdk : Sdk S) (project : Text) (versions : S → Text → Option (List Text))
    (law : IsSecretManager sdk project versions) where
  -- After a Create whose CreateSecret succeeds and whose AddSecretVersion fails, the key is neither
  -- there nor can it be created: Get returns ErrKeyNotFound, and Create ErrKeyExists.
  pub create_halfway :
      (name value other_value secret : Text) (s t u : S) (e : Error)
      → sdk.create_secret (parent sdk project) name s ≡ (t, ok secret)
      → sdk.add_secret_version secret value t ≡ (u, err e)
      → (create sdk project name value s ≡ (u, err (version_error sdk project name e)))
        × (get sdk project name u ≡ (u, err (Error.sdk key_not_found)))
        × (create sdk project name other_value u ≡ (u, err (Error.sdk key_exists)))
  unfolding create get
  create_halfway name value other_value secret s t u e made failed =
      let left = law.add_fails name secret value t u e failed ∙ law.creates name secret s t made in
      (
        rw (made, failed) refl,
        rw (law.misses name u left, law.is_missing.1, law.is_missing.0) refl,
        rw (law.refuses name u [] left, law.is_exists.1, law.is_exists.0) refl,
      )
