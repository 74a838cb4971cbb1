-- ===== src/Conf/File.antt =====
-- kesconf/file.go: the types of a configuration that has been read. A pointer that may be nil is an
-- Option, and a duration is its nanoseconds.
use kes.Prelude.{Bool, Option, List, ℤ, Text}
use kes.Prelude.Maps.{Assoc}

-- tls.ClientAuthType of Go's standard library.
pub data ClientAuthType : Type 0 where
  no_client_cert request_client_cert require_any_client_cert : ClientAuthType
  verify_client_cert_if_given require_and_verify_client_cert : ClientAuthType

pub record TlsConfig : Type 0 where
  pub private_key : Text
  pub certificate : Text
  pub password : Text
  pub client_auth : ClientAuthType
  pub ca_path : Text
  pub proxies : List Text
  pub forward_cert_header : Text

pub record CacheConfig : Type 0 where
  pub expiry : ℤ
  pub expiry_unused : ℤ
  pub expiry_offline : ℤ

-- slog.Level is an int.
pub record LogConfig : Type 0 where
  pub err_level : ℤ
  pub audit_level : ℤ

pub record ApiPathConfig : Type 0 where
  pub timeout : ℤ
  pub insecure_skip_auth : Bool

pub record Policy : Type 0 where
  pub allow : List Text
  pub deny : List Text
  pub identities : List Text

pub record VaultAppRoleAuth : Type 0 where
  pub engine : Text
  pub namespace : Text
  pub id : Text
  pub secret : Text

pub record VaultKubernetesAuth : Type 0 where
  pub engine : Text
  pub namespace : Text
  pub role : Text
  pub jwt : Text

pub record VaultTransit : Type 0 where
  pub engine : Text
  pub key_name : Text

pub record VaultKeyStore : Type 0 where
  pub endpoint : Text
  pub namespace : Text
  pub api_version : Text
  pub engine : Text
  pub prefix : Text
  pub app_role : Option VaultAppRoleAuth
  pub kubernetes : Option VaultKubernetesAuth
  pub transit : Option VaultTransit
  pub private_key : Text
  pub certificate : Text
  pub ca_path : Text
  pub status_ping : ℤ

pub record FsKeyStore : Type 0 where
  pub path : Text

pub record EncryptedFsKeyStore : Type 0 where
  pub master_key_path : Text
  pub master_key_cipher : Text
  pub path : Text

pub record FortanixKeyStore : Type 0 where
  pub endpoint : Text
  pub group_id : Text
  pub api_key : Text
  pub ca_path : Text

pub record KeySecureKeyStore : Type 0 where
  pub endpoint : Text
  pub token : Text
  pub domain : Text
  pub ca_path : Text

pub record GcpSecretManagerKeyStore : Type 0 where
  pub project_id : Text
  pub endpoint : Text
  pub scopes : List Text
  pub client_email : Text
  pub client_id : Text
  pub key_id : Text
  pub key : Text

pub record AwsSecretsManagerKeyStore : Type 0 where
  pub endpoint : Text
  pub region : Text
  pub kms_key : Text
  pub access_key : Text
  pub secret_key : Text
  pub session_token : Text

pub record AzureKeyVaultKeyStore : Type 0 where
  pub endpoint : Text
  pub tenant_id : Text
  pub client_id : Text
  pub client_secret : Text
  pub managed_identity_client_id : Text

pub record EntrustKeyControlKeyStore : Type 0 where
  pub endpoint : Text
  pub vault_id : Text
  pub box_id : Text
  pub username : Text
  pub password : Text
  pub ca_path : Text

-- The interface KeyStore, by its implementations.
pub data KeyStore : Type 0 where
  fs_store : FsKeyStore → KeyStore
  encrypted_fs_store : EncryptedFsKeyStore → KeyStore
  vault_store : VaultKeyStore → KeyStore
  fortanix_store : FortanixKeyStore → KeyStore
  key_secure_store : KeySecureKeyStore → KeyStore
  gcp_store : GcpSecretManagerKeyStore → KeyStore
  aws_store : AwsSecretsManagerKeyStore → KeyStore
  azure_store : AzureKeyVaultKeyStore → KeyStore
  entrust_store : EntrustKeyControlKeyStore → KeyStore

-- type File; an APIConfig is its Paths, and a Key is its Name.
pub record File : Type 0 where
  pub addr : Text
  pub admin : Text
  pub tls : Option TlsConfig
  pub cache : Option CacheConfig
  pub log : Option LogConfig
  pub api_paths : Option (Assoc Text ApiPathConfig)
  pub policies : Assoc Text Policy
  pub keys : List Text
  pub key_store : Option KeyStore
