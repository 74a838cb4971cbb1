-- ===== src/Conf/Sections.antt =====
-- kesconf/config.go: the sections of a configuration file that describe key stores. A pointer that
-- may be nil is an Option.
use kes.Prelude.{Option, List, ℤ, Text}

-- type env: a value, and the environment variable that it was read from, or "".
pub record Env {ℓ} (T : Type ℓ) : Type ℓ where
  pub variable : Text
  pub value : T

pub record FsSection : Type 0 where
  pub path : Env Text

pub record EncryptedFsSection : Type 0 where
  pub master_key_path : Env Text
  pub master_key_cipher : Env Text
  pub path : Env Text

pub record TlsSection : Type 0 where
  pub certificate : Env Text
  pub private_key : Env Text
  pub ca_path : Env Text

pub record KesSection : Type 0 where
  pub endpoint : List (Env Text)
  pub enclave : Env Text
  pub tls : TlsSection

pub record TransitSection : Type 0 where
  pub engine : Env Text
  pub key_name : Env Text

pub record AppRoleSection : Type 0 where
  pub engine : Env Text
  pub namespace : Env Text
  pub id : Env Text
  pub secret : Env Text

pub record KubernetesSection : Type 0 where
  pub engine : Env Text
  pub namespace : Env Text
  pub role : Env Text
  pub jwt : Env Text

pub record VaultSection : Type 0 where
  pub endpoint : Env Text
  pub engine : Env Text
  pub api_version : Env Text
  pub namespace : Env Text
  pub prefix : Env Text
  pub transit : Option TransitSection
  pub app_role : Option AppRoleSection
  pub kubernetes : Option KubernetesSection
  pub tls : TlsSection
  pub status_ping : Env ℤ

pub record SdkmsSection : Type 0 where
  pub endpoint : Env Text
  pub group_id : Env Text
  pub api_key : Env Text
  pub ca_path : Env Text

pub record KeySecureSection : Type 0 where
  pub endpoint : Env Text
  pub token : Env Text
  pub domain : Env Text
  pub ca_path : Env Text

pub record SecretManagerSection : Type 0 where
  pub project_id : Env Text
  pub endpoint : Env Text
  pub scopes : List (Env Text)
  pub client : Env Text
  pub client_id : Env Text
  pub key_id : Env Text
  pub key : Env Text

pub record SecretsManagerSection : Type 0 where
  pub endpoint : Env Text
  pub region : Env Text
  pub kms_key : Env Text
  pub access_key : Env Text
  pub secret_key : Env Text
  pub session_token : Env Text

pub record AzureCredentials : Type 0 where
  pub tenant_id : Env Text
  pub client_id : Env Text
  pub secret : Env Text

pub record KeyVaultSection : Type 0 where
  pub endpoint : Env Text
  pub credentials : Option AzureCredentials
  -- ManagedIdentity, whose only field is ClientID.
  pub managed_identity : Option (Env Text)

pub record EntrustLogin : Type 0 where
  pub username : Env Text
  pub password : Env Text

pub record KeyControlSection : Type 0 where
  pub endpoint : Env Text
  pub vault_id : Env Text
  pub box_id : Env Text
  pub login : Option EntrustLogin
  pub ca_path : Env Text

-- The struct KeyStore of ymlFile. A struct that holds only one pointer, such as GCP, is an Option
-- of an Option.
pub record KeyStoreSections : Type 0 where
  pub fs : Option FsSection
  pub encrypted_fs : Option EncryptedFsSection
  pub kes : Option KesSection
  pub vault : Option VaultSection
  pub fortanix : Option (Option SdkmsSection)
  pub gemalto : Option (Option KeySecureSection)
  pub gcp : Option (Option SecretManagerSection)
  pub aws : Option (Option SecretsManagerSection)
  pub azure : Option (Option KeyVaultSection)
  pub entrust : Option (Option KeyControlSection)
