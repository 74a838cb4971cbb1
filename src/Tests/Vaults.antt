-- ===== src/Tests/Vaults.antt =====
-- A Vault server with one K/V engine, whose transit engine puts its prefix before what it encrypts.
use kes.Prelude.{
  zero, suc, ◌+◌, ◌*◌, ◌≤◌, arith, ℕ, ◌≡◌, refl, ap, sym, ◌∙◌, true, false, Option, none, some,
  List, [], ◌∷◌, ◌++◌, Text, codes, text_beq, text_eq, nat_eq, if◌then◌else◌, pos, ◌==◌,
}
use kes.Api.Errors.{Result, ok, err, plain, message}
use kes.Conf.Sections.{Env, VaultSection, KeyStoreSections}
use kes.Conf.Checks.{Os}
use kes.Conf.Vault.{read_vault}
use kes.Conf.Stores.{read_section, yml_to_key_store}
use kes.Conf.File.{VaultKeyStore, vault_store}
use kes.Conf.Connect.{vault_config_of}
use kes.KeyStore.Json
use kes.KeyStore.Json.{Value, text, Fields, field, end}
use kes.KeyStore.Vault.{RawResponse, Sdk, Library, Store, transit_prefix}
use kes.KeyStore.Vault.Contract.{IsTransit}
use kes.KeyStore.Vault.Renewal.{
  Secret, Attempt, Round, second, Whole, Steady, started, renew_self, next_secret, round, rounds,
  renew_token, Current, renewed_in_time,
}
use kes.KeyStore.Vault.Connect.{Session, connect}
use kes.KeyStore.Vault.Connect.Logins.{is_panic, Calm, connect-no_panic}

abbrev Entries : Type 0
Entries = List (Text × Fields)

abbrev stored : Text → Entries → Option Fields
stored path [] = none
stored path ((p, fields) ∷ s) = if text_beq p path then some fields else stored path s

abbrev concat_texts : List Text → Text
concat_texts [] = []
concat_texts (t ∷ ts) = t ++ concat_texts ts

abbrev respond : ℕ → Text → RawResponse
respond code body = record { status_code = code; status = []; body = body }

abbrev drop_four : Text → Text
drop_four (a ∷ b ∷ c ∷ d ∷ s) = s
drop_four s = []

abbrev drop_prefix : Text → Text
drop_prefix (a ∷ b ∷ c ∷ d ∷ e ∷ f ∷ g ∷ h ∷ i ∷ s) = s
drop_prefix s = []

-- The body of a response of the transit engine is `e` or `d` and the text.
abbrev answer : Fields → Text
answer (field key (text v) rest) =
    if text_beq key (codes "plaintext") then b'e' ∷ v else b'd' ∷ drop_prefix v
answer fields = []

abbrev fields_of : Text → Option Fields
fields_of [] = none
fields_of (c ∷ v) =
    if c == b'e'
    then some (field (codes "ciphertext") (text (transit_prefix ++ v)) end)
    else some (field (codes "plaintext") (text v) end)

abbrev vault : Sdk Entries
vault = record {
  read = λ path s. (s, ok (stored path s));
  request = λ method url body s.
      if text_beq method (codes "PUT")
      then ((drop_four url, body) ∷ s, ok (respond 204 []))
      else (s, ok (respond 200 (answer body)));
  read_list = λ path s. (s, ok []);
  kv1_get = λ engine place s. (s, ok (stored (engine ++ (place ++ [])) s));
  kv2_get_version = λ engine place n s. (s, ok none);
  kv1_delete = λ engine place s. (s, ok tt);
  kv2_delete_metadata = λ engine place s. (s, ok tt);
  clone_with_headers = none;
  health = λ s. (s, ok (record { initialized = true; sealed = false }));
}

abbrev library : Library
library = record {
  parse_secret = λ body. ok (fields_of body);
  is_secret_not_found = λ e. false;
  join = concat_texts;
  base64_encode = λ b. b;
  base64_decode = λ b. ok b;
  error_text = λ e. [];
  decimal = λ n. n ∷ [];
  show = λ v. [];
}

abbrev read_of : Entries × Result (Option Fields) → Option Fields
read_of (s, ok found) = found
read_of (s, r) = none

abbrev body_of : Entries × Result RawResponse → Text
body_of (s, ok resp) = resp.body
body_of (s, r) = []

abbrev ciphertext_of : Result (Option Fields) → Option Value
ciphertext_of (ok (some fields)) = Json.find (codes "ciphertext") fields
ciphertext_of r = none

abbrev text_of : Option Value → Text
text_of (some (text t)) = t
text_of v = []

abbrev parsed_of : Result (Option Fields) → Option Fields
parsed_of (ok found) = found
parsed_of r = none

abbrev plaintext_of : Option Fields → Option Value
plaintext_of (some fields) = Json.find (codes "plaintext") fields
plaintext_of none = none

-- What the transit engine has encrypted is what it is asked for.
sent_text :
    (plaintext ciphertext : Text) (fields : Fields) (body : Text)
    → b'e' ∷ plaintext ≡ body
    → library.parse_secret body ≡ ok (some fields)
    → Json.find (codes "ciphertext") fields ≡ some (text ciphertext)
    → transit_prefix ++ plaintext ≡ ciphertext
sent_text plaintext ciphertext fields body sent parsed found =
    ap text_of (ap ciphertext_of (ap library.parse_secret sent ∙ parsed) ∙ found)

transit : IsTransit library vault
transit = record {
  decrypts =
      λ t plaintext ciphertext a b u w resp answer fields found h parsed given h' fine parsed'.
        let same = sent_text plaintext ciphertext fields resp.body (ap body_of h) parsed given in
        let asked : b'd' ∷ drop_prefix ciphertext ≡ answer.body = ap body_of h' in
        let fields_found : fields_of (b'd' ∷ drop_prefix ciphertext) ≡ some found =
          ap fields_of asked ∙ ap parsed_of parsed' in
        ap plaintext_of (sym fields_found) ∙ rw (← same) refl;
  decodes = λ b. refl;
}

abbrev store : Store
store = record {
  connected = true;
  sealed = false;
  config = record {
    endpoint = codes "https://127.0.0.1:8200";
    engine = codes "kv/";
    api_version = codes "v1";
    namespace = [];
    prefix = [];
    app_role = none;
    k8s = none;
    transit = some (record { engine = codes "transit/"; key_name = codes "kes" });
    status_ping_after = pos 0;
    private_key = [];
    certificate = [];
    ca_path = [];
  };
}

abbrev sealed_key : Fields
sealed_key = field (codes "my-key") (text (codes "vault:v1:secret")) end

-- A section with a JWT for Kubernetes, and a Vault that refuses every login.
abbrev given_env : Text → Env Text
given_env t = record { variable = []; value = t }

abbrev section : VaultSection
section = record {
  endpoint = given_env (codes "https://127.0.0.1:8200");
  engine = given_env [];
  api_version = given_env [];
  namespace = given_env [];
  prefix = given_env [];
  transit = none;
  app_role = none;
  kubernetes = some (record {
    engine = given_env [];
    namespace = given_env [];
    role = given_env (codes "kes");
    jwt = given_env (codes "token");
  });
  tls = record { certificate = given_env []; private_key = given_env []; ca_path = given_env [] };
  status_ping = record { variable = []; value = pos 0 };
}

abbrev sections : KeyStoreSections
sections = record {
  fs = none;
  encrypted_fs = none;
  kes = none;
  vault = some section;
  fortanix = none;
  gemalto = none;
  gcp = none;
  aws = none;
  azure = none;
  entrust = none;
}

abbrev os : Os
os = record { path_separator = b'/'; read_error = λ path. none }

abbrev refusing : Session ℕ
refusing = record {
  stat = λ path. ok false;
  path_separator = b'/';
  read_file = λ path. ok (codes "token");
  new_client = λ c s. (s, ok tt);
  write = λ ns path fields s. (s + 1, err (plain (message "permission denied")));
}

refusing-Calm : Calm refusing
refusing-Calm = record {
  stat = λ path. refl;
  read_file = λ path. refl;
  new_client = λ c s. refl;
  write = λ ns path fields s. refl;
  token = λ ns path fields s token h. absurd (cc);
}

abbrev kubernetes_store : VaultKeyStore
kubernetes_store = record {
  endpoint = codes "https://127.0.0.1:8200";
  namespace = [];
  api_version = [];
  engine = [];
  prefix = [];
  app_role = none;
  kubernetes =
      some (record { engine = []; namespace = []; role = codes "kes"; jwt = codes "token" });
  transit = none;
  private_key = [];
  certificate = [];
  ca_path = [];
  status_ping = pos 0;
}

section_is_read : yml_to_key_store os sections ≡ ok (vault_store kubernetes_store)
unfolding yml_to_key_store read_section read_vault
section_is_read = refl

connect-no_panic_example :
    is_panic (connect library refusing (vault_config_of kubernetes_store) 0).1 ≡ false
connect-no_panic_example =
    connect-no_panic library refusing refusing-Calm os sections kubernetes_store 0 section_is_read

abbrev hour : ℕ
hour = 3600 * second

abbrev first_secret : Secret
first_secret = record { ttl = hour; token = codes "first"; renewable = true }

abbrev second_secret : Secret
second_secret = record { ttl = hour; token = codes "second"; renewable = true }

-- The first attempt fails, and the second one succeeds.
abbrev attempt : ℕ → Attempt
attempt zero = record { secret = none; final = false }
attempt (suc i) = record { secret = some second_secret; final = true }

abbrev renewing : Round
renewing = record { sealed = false; attempts = attempt; logged_in = none }

hour-Whole : Whole hour
hour-Whole = (3600, refl)

once : Steady (renewing ∷ []) (started first_secret 0)
unfolding next_secret renew_self
once = (refl, second_secret, refl, omega arith, hour-Whole, tt)

found_again :
    next_secret renewing (renew_token first_secret 0 (renewing ∷ [])).secret ≡ some second_secret
unfolding renew_token rounds round next_secret renew_self
found_again = refl

renewed_in_time_example :
    let r = renew_token first_secret 0 (renewing ∷ []) in
    Current r
    × ((round renewing r).token ≡ second_secret.token)
    × ((round renewing r).now ≤ r.issued + r.ttl)
renewed_in_time_example =
    renewed_in_time first_secret 0 (renewing ∷ []) renewing second_secret (omega arith) hour-Whole
      once refl found_again
