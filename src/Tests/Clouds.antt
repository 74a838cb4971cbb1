-- ===== src/Tests/Clouds.antt =====
-- The key stores at the AWS SecretsManager and at a GCP SecretManager that fails halfway.
use kes.Prelude.{
  ◌≡◌, refl, ap, Bool, true, false, Option, none, some, List, [], ◌∷◌, ◌++◌, Text, codes, text_beq,
  text_beq_iff, sym, text_eq, nat_eq, if◌then◌else◌,
}
use kes.Api.Errors.{
  errors_is, is_canceled, is_deadline, Error, Result, ok, err, plain, message, sdk, key_exists,
  key_not_found,
}
use kes.KeyStore.Memory.Replies
use kes.KeyStore.Memory.Replies.{Call, put}
use kes.KeyStore.SecretsManager
use kes.KeyStore.SecretsManager.{SecretValue}
use kes.Tests.Data.{my_key}
use kes.KeyStore.SecretManager
use kes.KeyStore.SecretManager.{version_error}
use kes.KeyStore.SecretManager.Halfway.{IsSecretManager, create_halfway}

abbrev text_error : Error
text_error = plain (message "error")

abbrev concat_texts : List Text → Text
concat_texts [] = []
concat_texts (t ∷ ts) = t ++ concat_texts ts

abbrev Versions : Type 0
Versions = Text → Option (List Text)

abbrev exists : Error
exists = plain (record { format = "%s"; args = codes "AlreadyExists" ∷ [] })

abbrev missing : Error
missing = plain (record { format = "%s"; args = codes "NotFound" ∷ [] })

abbrev outage_error : Error
outage_error = plain (record { format = "%s"; args = codes "Unavailable" ∷ [] })

abbrev has_code : Text → Error → Bool
has_code code (plain m) = elim m.args [ [] ↦ false | t ∷ ts ↦ text_beq code t ]
has_code code e = false

abbrev new_secret : Text → Option (List Text) → Versions → Versions × Result Text
new_secret name none s = (λ j. if text_beq name j then some [] else s j, ok name)
new_secret name (some vs) s = (s, err exists)

-- A SecretManager that makes secrets and fails to add versions to them.
abbrev gcp : SecretManager.Sdk Versions
gcp = record {
  create_secret = λ parent name s. new_secret name (s name) s;
  add_secret_version = λ secret value s. (s, err outage_error);
  access_secret_version = λ path s. (s, err missing);
  delete_secret = λ path s. (s, ok tt);
  names = λ parent s. (s, ok []);
  get_endpoint = λ url s. (s, ok tt);
  latency = 1;
  new_request = λ url. none;
  is_already_exists = has_code (codes "AlreadyExists");
  is_not_found = has_code (codes "NotFound");
  join = concat_texts;
  base = λ path. path;
  error_text = λ e. [];
}

new_secret-ok :
    (name secret : Text) (o : Option (List Text)) (s t : Versions)
    → new_secret name o s ≡ (t, ok secret)
    → t name ≡ some []
new_secret-ok name secret none s t h =
    let same : text_beq name name ≡ true = (text_beq_iff name name).1 refl in
    let here = ap (λ (r : Versions × Result Text). r.0 name) h in rw (← here, same) refl
new_secret-ok name secret (some vs) s t h = absurd (cc)

gcp_law : IsSecretManager gcp (codes "kes") (λ (s : Versions). s)
unfolding errors_is is_canceled is_deadline
gcp_law = record {
  creates = λ name secret s t h. new_secret-ok name secret (s name) s t h;
  add_fails =
      λ name secret value s t e h. ap (λ (r : Versions × Result (Unit {0})). r.0 name) (sym h);
  exists_error = exists;
  is_exists = (refl, refl);
  refuses = λ name s vs h. rw (h) refl;
  not_found_error = missing;
  is_missing = (refl, refl);
  misses = λ name s h. refl;
}

abbrev no_secrets : Versions
no_secrets j = none

abbrev half_made : Versions
half_made j = if text_beq (codes "a") j then some [] else none

create_halfway_example :
    (SecretManager.create gcp (codes "kes") (codes "a") (codes "x") no_secrets
      ≡ (half_made, err (version_error gcp (codes "kes") (codes "a") outage_error)))
    × (SecretManager.get gcp (codes "kes") (codes "a") half_made
        ≡ (half_made, err (sdk key_not_found)))
    × (SecretManager.create gcp (codes "kes") (codes "a") (codes "y") half_made
        ≡ (half_made, err (sdk key_exists)))
create_halfway_example =
    create_halfway gcp (codes "kes") (λ (s : Versions). s) gcp_law (codes "a") (codes "x")
      (codes "y") (codes "a") no_secrets half_made half_made outage_error refl refl

abbrev Secrets : Type 0
Secrets = Text → Option Text

abbrev created : Text → Text → Option Text → Secrets → Secrets × Option Error
created name value none s = (put name (some value) s, none)
created name value (some v) s = (s, some exists)

abbrev found : Option Text → Result SecretValue
found none = err missing
found (some v) = ok (record { secret_string = some v; secret_binary = [] })

abbrev aws : SecretsManager.Sdk Secrets
aws = record {
  create_secret = λ name value kms s. created name value (s name) s;
  get_secret_value = λ name s. (s, found (s name));
  delete_secret = λ name s. (put name none s, none);
  pages = λ s. (s, []);
  get_endpoint = λ url s. (s, none);
  latency = 1;
  new_request = λ url. none;
  is_resource_exists = has_code (codes "AlreadyExists");
  is_decryption_failure = λ e. false;
  is_resource_not_found = has_code (codes "NotFound");
  error_code = λ e. none;
  error_text = λ e. [];
}

abbrev aws_config : SecretsManager.Config
aws_config = record { addr = []; region = codes "us-east-2"; kms_key_id = [] }

abbrev nothing : Secrets
nothing name = none

-- Both errors, and the key that is deleted.
abbrev calls : List Call
calls =
    Replies.get my_key
    ∷ Replies.create my_key []
    ∷ Replies.create my_key []
    ∷ Replies.delete my_key
    ∷ Replies.get my_key
    ∷ []
