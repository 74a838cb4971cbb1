-- ===== src/Conf/Backends.antt =====
-- internal/keystore: the configurations of the back ends, and what a key store of the configuration
-- file calls to connect to one. Connections go over the network, so they are arguments.
use kes.Prelude.{Option, List, ℤ, Text, ◌⊎◌}
use kes.Api.Errors.{Result}
use kes.Conf.File.{VaultAppRoleAuth, VaultKubernetesAuth, VaultTransit}

-- vault.AppRole, vault.Kubernetes and vault.Transit have the fields of the file's types.
pub record VaultConfig : Type 0 where
  pub endpoint : Text
  pub engine : Text
  pub api_version : Text
  pub namespace : Text
  pub prefix : Text
  pub app_role : Option VaultAppRoleAuth
  pub k8s : Option VaultKubernetesAuth
  pub transit : Option VaultTransit
  pub status_ping_after : ℤ
  pub private_key : Text
  pub certificate : Text
  pub ca_path : Text

pub record FortanixConfig : Type 0 where
  pub endpoint : Text
  pub group_id : Text
  pub api_key : Text
  pub ca_path : Text

-- gemalto.Credentials, whose Retry is not set.
pub record GemaltoCredentials : Type 0 where
  pub token : Text
  pub domain : Text

pub record GemaltoConfig : Type 0 where
  pub endpoint : Text
  pub ca_path : Text
  pub login : GemaltoCredentials

pub record GcpCredentials : Type 0 where
  pub client_id : Text
  pub client : Text
  pub key_id : Text
  pub key : Text

pub record GcpConfig : Type 0 where
  pub endpoint : Text
  pub project_id : Text
  pub credentials : GcpCredentials
  pub scopes : List Text

pub record AwsCredentials : Type 0 where
  pub access_key : Text
  pub secret_key : Text
  pub session_token : Text

pub record AwsConfig : Type 0 where
  pub addr : Text
  pub region : Text
  pub kms_key_id : Text
  pub login : AwsCredentials

-- The TLS configuration is its RootCAs; a nil pool is the host's.
pub record EntrustConfig (Pool : Type 0) : Type 0 where
  pub endpoint : Text
  pub vault_id : Text
  pub box_id : Text
  pub username : Text
  pub password : Text
  pub root_cas : Option Pool

-- Which constructor of azidentity makes the credential.
pub data AzureCredential : Type 0 where
  client_secret : Text → Text → Text → AzureCredential
  managed_identity : Text → AzureCredential
  default_credential : AzureCredential

-- `Pool` is *x509.CertPool and `Token` is azcore.TokenCredential. A credential that cannot be made
-- gives the text of the error.
pub record Backends (S Pool Token : Type 0) : Type 1 where
  pub fs_new_store : Text → Result S
  pub efs_new_store : Text → Text → Text → Result S
  pub vault_connect : VaultConfig → Result S
  pub fortanix_connect : FortanixConfig → Result S
  pub gemalto_connect : GemaltoConfig → Result S
  pub gcp_connect : GcpConfig → Result S
  pub aws_connect : AwsConfig → Result S
  pub azure_connect : Text → Token → Result S
  pub entrust_login : EntrustConfig Pool → Result S
  pub new_credential : AzureCredential → Text ⊎ Token
  pub cert_pool_from_file : Text → Result Pool
