-- ===== src/KeyStore/SecretsManager/Replies.antt =====
-- The key store at the AWS SecretsManager against a map from names to values: what it answers to
-- calls, by what the SDK answers.
use kes.Prelude.{◌≡◌, Bool, true, false, Option, none, some, List, [], ◌∷◌, Text, is_some}
use kes.Api.Errors.{Error, ok, err}
use kes.KeyStore.Remote.{is_context_error}
use kes.KeyStore.SecretsManager
use kes.KeyStore.SecretsManager.{Sdk, Config, SecretValue, value_of}
use kes.KeyStore.Memory.Replies
use kes.KeyStore.Memory.Replies.{Call, Map, put, promised}

-- What is documented of a SecretsManager that can be reached: `view` are its secrets. CreateSecret
-- refuses a name that exists with ResourceExistsException, GetSecretValue one that does not with
-- ResourceNotFoundException, and DeleteSecret removes a secret that is there. What it does with one
-- that is not is left open: the interface KeyStore allows an error and no error.
pub record IsSecretsManager {S : Type 0} (aws : Sdk S) (view : S → Map) : Type 0 where
  pub creates :
      (name b : Text) (kms : Option Text) (s : S)
      → view s name ≡ none
      → ((aws.create_secret name b kms s).1 ≡ none)
        × ((j : Text) → view (aws.create_secret name b kms s).0 j ≡ put name (some b) (view s) j)
  pub refuses :
      (name b old : Text) (kms : Option Text) (s : S)
      → view s name ≡ some old
      → (e : Error) × ((aws.create_secret name b kms s).1 ≡ some e)
        × (is_context_error e ≡ false)
        × (aws.is_resource_exists e ≡ true)
        × ((j : Text) → view (aws.create_secret name b kms s).0 j ≡ view s j)
  pub gets :
      (name b : Text) (s : S)
      → view s name ≡ some b
      → (v : SecretValue) × ((aws.get_secret_value name s).1 ≡ ok v) × (value_of v ≡ b)
  pub misses :
      (name : Text) (s : S)
      → view s name ≡ none
      → (e : Error) × ((aws.get_secret_value name s).1 ≡ err e)
        × (is_context_error e ≡ false)
        × (aws.is_decryption_failure e ≡ false)
        × (aws.is_resource_not_found e ≡ true)
  pub get_keeps :
      (name : Text) (s : S) (j : Text) → view (aws.get_secret_value name s).0 j ≡ view s j
  pub deletes :
      (name b : Text) (s : S)
      → view s name ≡ some b
      → ((aws.delete_secret name s).1 ≡ none)
        × ((j : Text) → view (aws.delete_secret name s).0 j ≡ put name none (view s) j)

-- Whether a call deletes a key only if it is there.
abbrev pub is_sure : Call → Map → Bool
is_sure (Replies.delete name) m = is_some (m name)
is_sure call m = true

abbrev pub Sure : List Call → Map → Type 0
Sure [] m = Unit
Sure (c ∷ cs) m = (is_sure c m ≡ true) × Sure cs (promised c m).0

module _ {S : Type 0} (aws : Sdk S) (view : S → Map) (law : IsSecretsManager aws view)
    (conf : Config) where
  abbrev Agrees : S × Replies.Reply → Map × Replies.Reply → Type 0
  Agrees p q = ((j : Text) → view p.0 j ≡ q.0 j) × (p.1 ≡ q.1)
