-- ===== src/Conf/Clouds.antt =====
-- ymlToKeyStore of kesconf/config.go: the parts about the other key management systems.
use kes.Prelude.{◌&&◌, Option, none, some, List, [], map, is_some, Text, text_eq}
use kes.Api.Errors.{Result, ok, panic, message, ◌>>=◌, ◌>>◌}
use kes.Conf.Sections.{
  Env, SdkmsSection, KeySecureSection, SecretManagerSection, SecretsManagerSection,
  AzureCredentials, KeyVaultSection, EntrustLogin, KeyControlSection,
}
use kes.Conf.File.{
  KeyStore, fortanix_store, key_secure_store, gcp_store, aws_store, azure_store, entrust_store,
}
use kes.Conf.Checks.{refuse_if, required, if_present}

unfoldable pub read_sdkms : SdkmsSection → Result KeyStore
read_sdkms y = do
  required y.endpoint "kesconf: invalid fortanix SDKMS keystore: no endpoint specified"
  required y.api_key "kesconf: invalid fortanix SDKMS keystore: no API key specified"
  ok (
      fortanix_store (record {
        endpoint = y.endpoint.value;
        group_id = y.group_id.value;
        api_key = y.api_key.value;
        ca_path = y.ca_path.value;
      }))

unfoldable pub read_key_secure : KeySecureSection → Result KeyStore
read_key_secure y = do
  required y.endpoint "kesconf: invalid gemalto keysecure keystore: no endpoint specified"
  required y.token "kesconf: invalid gemalto keysecure keystore: no token specified"
  ok (
      key_secure_store (record {
        endpoint = y.endpoint.value;
        token = y.token.value;
        domain = y.domain.value;
        ca_path = y.ca_path.value;
      }))

abbrev pub values : List (Env Text) → List Text
values = map (λ (v : Env Text). v.value)

unfoldable pub read_secret_manager : SecretManagerSection → Result KeyStore
read_secret_manager y = do
  required y.project_id "kesconf: invalid GCP secretmanager keystore: no project ID specified"
  ok (
      gcp_store (record {
        project_id = y.project_id.value;
        endpoint = y.endpoint.value;
        scopes = values y.scopes;
        client_email = y.client.value;
        client_id = y.client_id.value;
        key_id = y.key_id.value;
        key = y.key.value;
      }))

unfoldable pub read_secrets_manager : SecretsManagerSection → Result KeyStore
read_secrets_manager y = do
  required y.endpoint "kesconf: invalid AWS secretsmanager keystore: no endpoint specified"
  required y.region "kesconf: invalid AWS secretsmanager keystore: no region specified"
  ok (
      aws_store (record {
        endpoint = y.endpoint.value;
        region = y.region.value;
        kms_key = y.kms_key.value;
        access_key = y.access_key.value;
        secret_key = y.secret_key.value;
        session_token = y.session_token.value;
      }))

abbrev pub check_azure_credentials : AzureCredentials → Result (Unit {0})
check_azure_credentials c = do
  required c.tenant_id "kesconf: invalid Azure keyvault keystore: no tenant ID specified"
  required c.client_id "kesconf: invalid Azure keyvault keystore: no client ID specified"
  required c.secret "kesconf: invalid Azure keyvault keystore: no client secret specified"

abbrev pub check_managed_identity : Env Text → Result (Unit {0})
check_managed_identity id =
    required id "kesconf: invalid Azure keyvault keystore: no client ID specified"

-- The value behind a pointer, and "" for nil, which is the zero value that a field keeps.
abbrev pub field_of : {A : Type 0} → (A → Env Text) → Option A → Text
field_of f none = []
field_of f (some x) = (f x).value

unfoldable pub read_key_vault : KeyVaultSection → Result KeyStore
read_key_vault y = do
  required y.endpoint "kesconf: invalid Azure keyvault keystore: no endpoint specified"
  refuse_if (is_some y.credentials && is_some y.managed_identity)
      "kesconf: invalid Azure keyvault keystore: more than one authentication method specified"
  if_present y.credentials check_azure_credentials
  if_present y.managed_identity check_managed_identity
  ok (
      azure_store (record {
        endpoint = y.endpoint.value;
        tenant_id = field_of (λ (c : AzureCredentials). c.tenant_id) y.credentials;
        client_id = field_of (λ (c : AzureCredentials). c.client_id) y.credentials;
        client_secret = field_of (λ (c : AzureCredentials). c.secret) y.credentials;
        managed_identity_client_id = field_of (λ (id : Env Text). id) y.managed_identity;
      }))

-- y.KeyStore.Entrust.KeyControl.Login, which is read without a test for nil.
abbrev pub login_of : KeyControlSection → Result EntrustLogin
login_of y = elim y.login [
  | none ↦ panic (message "runtime error: invalid memory address or nil pointer dereference")
  | some login ↦ ok login
]

unfoldable pub read_key_control : KeyControlSection → Result KeyStore
read_key_control y = do
  required y.endpoint "kesconf: invalid Entrust KeyControl keystore: no endpoint specified"
  required y.vault_id "kesconf: invalid Entrust KeyControl keystore: no vault ID specified"
  required y.box_id "kesconf: invalid Entrust KeyControl keystore: no box ID specified"
  login ← login_of y
  required login.username "kesconf: invalid Entrust KeyControl keystore: no username specified"
  required login.password "kesconf: invalid Entrust KeyControl keystore: no password specified"
  ok (
      entrust_store (record {
        endpoint = y.endpoint.value;
        vault_id = y.vault_id.value;
        box_id = y.box_id.value;
        username = login.username.value;
        password = login.password.value;
        ca_path = y.ca_path.value;
      }))
