-- ===== src/KeyStore/SecretsManager.antt =====
-- internal/keystore/aws/secrets-manager.go: the key store at the AWS SecretsManager. The client of the
-- AWS SDK, and the HTTP client of Status, are parameters.
pub mod Replies
use kes.Prelude.{
  ℕ, Bool, false, ◌||◌, Option, none, some, List, [], ◌∷◌, ◌++◌, ℤ, Text, codes, text_beq,
  if◌then◌else◌, text_eq, nat_eq,
}
use kes.Api.Errors.{Error, Result, ok, err, panic, unreachable, key_exists, key_not_found}
use kes.KeyStore.Interface.{KeyStore, KeyStoreState}
use kes.KeyStore.Listing
use kes.KeyStore.Remote.{failure, is_context_error}

-- A secret is a string or bytes; the other one is nil.
pub record SecretValue : Type 0 where
  pub secret_string : Option Text
  pub secret_binary : Text

-- The calls of the SDK; `pages` is what NextPage returns until the paginator has no more pages. What
-- errors.As tells of an error: the types of the SDK, and the code of a smithy.APIError.
pub record Sdk (S : Type 0) : Type 0 where
  pub create_secret : Text → Text → Option Text → S → S × Option Error
  pub get_secret_value : Text → S → S × Result SecretValue
  pub delete_secret : Text → S → S × Option Error
  pub pages : S → S × List (Result (List (Option Text)))
  pub get_endpoint : Text → S → S × Option Error
  pub latency : ℕ
  pub new_request : Text → Option Error
  pub is_resource_exists : Error → Bool
  pub is_decryption_failure : Error → Bool
  pub is_resource_not_found : Error → Bool
  pub error_code : Error → Option Text
  pub error_text : Error → Text

pub record Config : Type 0 where
  pub addr : Text
  pub region : Text
  pub kms_key_id : Text

abbrev pub kms_key : Config → Option Text
kms_key c = if text_beq c.kms_key_id [] then none else some c.kms_key_id

abbrev pub value_of : SecretValue → Text
value_of v = elim v.secret_string [ none ↦ v.secret_binary | some s ↦ s ]

abbrev pub present : List (Option Text) → List Text
present [] = []
present (none ∷ names) = present names
present (some name ∷ names) = name ∷ present names

-- The loop over the pages.
unfoldable pub collect : List Text → List (Result (List (Option Text))) → Result (List Text)
collect names [] = ok names
collect names (panic why ∷ pages) = panic why
collect names (err e ∷ pages) = err e
collect names (ok page ∷ pages) = collect (names ++ present page) pages

module _ {S : Type 0} (sdk : Sdk S) where
  abbrev pub has_code : Text → Error → Bool
  has_code code e = elim (sdk.error_code e) [ none ↦ false | some c ↦ text_beq c code ]

  abbrev pub is_missing : Error → Bool
  is_missing e = sdk.is_resource_not_found e || has_code (codes "ResourceNotFoundException") e

  abbrev pub create_error : Text → Error → Error
  create_error name e =
      if is_context_error e
      then e
      else if sdk.is_resource_exists e
      then Error.sdk key_exists
      else failure "aws: failed to create '%s': %v" (name ∷ sdk.error_text e ∷ [])

  -- The switch on the code of an API error in Get.
  abbrev pub code_error : Text → Error → Error
  code_error name e =
      if has_code (codes "DecryptionFailureException") e
      then failure "aws: cannot access '%s': %v" (name ∷ sdk.error_text e ∷ [])
      else if has_code (codes "ResourceNotFoundException") e
      then Error.sdk key_not_found
      else failure "aws: failed to read '%s': %v" (name ∷ sdk.error_text e ∷ [])

  abbrev pub get_error : Text → Error → Error
  get_error name e =
      if is_context_error e
      then e
      else if sdk.is_decryption_failure e
      then failure "aws: cannot access '%s': %v" (name ∷ sdk.error_text e ∷ [])
      else if sdk.is_resource_not_found e
      then Error.sdk key_not_found
      else code_error name e

  abbrev pub delete_error : Text → Error → Error
  delete_error name e =
      if is_context_error e
      then e
      else if is_missing e
      then Error.sdk key_not_found
      else failure "aws: failed to delete '%s': %v" (name ∷ sdk.error_text e ∷ [])

  abbrev pub with_error : (Error → Error) → S × Option Error → S × Option Error
  with_error f (s, none) = (s, none)
  with_error f (s, some e) = (s, some (f e))

  unfoldable pub create : Config → Text → Text → S → S × Option Error
  create c name value s =
      with_error (create_error name) (sdk.create_secret name value (kms_key c) s)

  abbrev pub got : Text → S × Result SecretValue → S × Result Text
  got name (s, ok v) = (s, ok (value_of v))
  got name (s, err e) = (s, err (get_error name e))
  got name (s, panic why) = (s, panic why)

  unfoldable pub get : Text → S → S × Result Text
  get name s = got name (sdk.get_secret_value name s)

  unfoldable pub delete : Text → S → S × Option Error
  delete name s = with_error (delete_error name) (sdk.delete_secret name s)

  abbrev pub page_of : Text → ℤ → Result (List Text) → Result (List Text × Text)
  page_of prefix n (ok names) = ok (Listing.list names prefix n)
  page_of prefix n (err e) = err e
  page_of prefix n (panic why) = panic why

  unfoldable pub list : Text → ℤ → S → S × Result (List Text × Text)
  list prefix n s = let (t, pages) = sdk.pages s in (t, page_of prefix n (collect [] pages))

  abbrev pub endpoint_of : Config → Text
  endpoint_of c =
      codes "https://"
      ++ (if text_beq c.addr []
          then codes "secretsmanager." ++ (c.region ++ codes ".amazonaws.com")
          else c.addr)

  abbrev pub reached : S × Option Error → S × Result KeyStoreState
  reached (s, none) = (s, ok (record { latency = sdk.latency }))
  reached (s, some e) = (s, err (unreachable e))

  abbrev pub asked : Option Error → Text → S → S × Result KeyStoreState
  asked none url s = reached (sdk.get_endpoint url s)
  asked (some e) url s = (s, err e)

  unfoldable pub status : Config → S → S × Result KeyStoreState
  status c s = asked (sdk.new_request (endpoint_of c)) (endpoint_of c) s

  abbrev pub secrets_manager : Config → KeyStore S
  secrets_manager c = record {
    status = status c;
    create = create c;
    delete = delete;
    get = get;
    list = list;
    close = λ s. (s, none);
  }
