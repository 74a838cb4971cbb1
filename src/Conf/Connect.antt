-- ===== src/Conf/Connect.antt =====
-- The Connect methods of kesconf/file.go.
pub mod Admitted
use kes.Prelude.{
  ◌⊎◌, inl, inr, Bool, not, ◌&&◌, ◌||◌, Option, none, some, [], ◌∷◌, if◌then◌else◌, is_some, Text,
  text_beq,
}
use kes.Api.Errors.{Result, ok, err, plain, ◌>>=◌, ◌>>◌}
use kes.Conf.Checks.{refuse_if}
use kes.Conf.File.{
  VaultKeyStore, FortanixKeyStore, KeySecureKeyStore, GcpSecretManagerKeyStore,
  AwsSecretsManagerKeyStore, AzureKeyVaultKeyStore, EntrustKeyControlKeyStore, KeyStore, fs_store,
  encrypted_fs_store, vault_store, fortanix_store, key_secure_store, gcp_store, aws_store,
  azure_store, entrust_store,
}
use kes.Conf.Backends.{
  VaultConfig, FortanixConfig, GemaltoConfig, GcpConfig, AwsConfig, AzureCredential, client_secret,
  managed_identity, default_credential, Backends,
}

abbrev pub vault_config_of : VaultKeyStore → VaultConfig
vault_config_of s = record {
  endpoint = s.endpoint;
  engine = s.engine;
  api_version = s.api_version;
  namespace = s.namespace;
  prefix = s.prefix;
  app_role = s.app_role;
  k8s = s.kubernetes;
  transit = s.transit;
  status_ping_after = s.status_ping;
  private_key = s.private_key;
  certificate = s.certificate;
  ca_path = s.ca_path;
}

abbrev pub fortanix_config_of : FortanixKeyStore → FortanixConfig
fortanix_config_of s = record {
  endpoint = s.endpoint;
  group_id = s.group_id;
  api_key = s.api_key;
  ca_path = s.ca_path;
}

abbrev pub gemalto_config_of : KeySecureKeyStore → GemaltoConfig
gemalto_config_of s = record {
  endpoint = s.endpoint;
  ca_path = s.ca_path;
  login = record { token = s.token; domain = s.domain };
}

abbrev pub gcp_config_of : GcpSecretManagerKeyStore → GcpConfig
gcp_config_of s = record {
  endpoint = s.endpoint;
  project_id = s.project_id;
  credentials = record {
    client_id = s.client_id;
    client = s.client_email;
    key_id = s.key_id;
    key = s.key;
  };
  scopes = s.scopes;
}

abbrev pub aws_config_of : AwsSecretsManagerKeyStore → AwsConfig
aws_config_of s = record {
  addr = s.endpoint;
  region = s.region;
  kms_key_id = s.kms_key;
  login = record {
    access_key = s.access_key;
    secret_key = s.secret_key;
    session_token = s.session_token;
  };
}

-- s.TenantID != "" || s.ClientID != "" || s.ClientSecret != ""
abbrev pub has_client_secret : AzureKeyVaultKeyStore → Bool
has_client_secret s =
    not (text_beq s.tenant_id [])
    || (not (text_beq s.client_id []) || not (text_beq s.client_secret []))

abbrev pub azure_credential_of : AzureKeyVaultKeyStore → AzureCredential
azure_credential_of s =
    if has_client_secret s
    then client_secret s.tenant_id s.client_id s.client_secret
    else if not (text_beq s.managed_identity_client_id [])
    then managed_identity s.managed_identity_client_id
    else default_credential

module _ {S Pool Token : Type 0} (to : Backends S Pool Token) where
  unfoldable pub connect_vault : VaultKeyStore → Result S
  connect_vault s = do
    refuse_if (not (is_some s.app_role) && not (is_some s.kubernetes))
        "edge: failed to connect to hashicorp vault: no authentication method specified"
    refuse_if (is_some s.app_role && is_some s.kubernetes)
        "edge: failed to connect to hashicorp vault: more than one authentication method specified"
    to.vault_connect (vault_config_of s)

  abbrev pub azure_connect_with : Text → Text ⊎ Token → Result S
  azure_connect_with endpoint (inl why) = err (
      plain (record {
        format = "azure: failed to create default Azure credential: %v";
        args = why ∷ [];
      }))
  azure_connect_with endpoint (inr token) = to.azure_connect endpoint token

  unfoldable pub connect_azure : AzureKeyVaultKeyStore → Result S
  connect_azure s = do
    refuse_if (has_client_secret s && not (text_beq s.managed_identity_client_id []))
        "edge: failed to connect to Azure KeyVault: more than one authentication method specified"
    azure_connect_with s.endpoint (to.new_credential (azure_credential_of s))

  -- The certificates of CAPath; nil for none.
  abbrev pub root_cas : Text → Result (Option Pool)
  root_cas path =
      if text_beq path []
      then ok none
      else to.cert_pool_from_file path >>= (λ (ca : Pool). ok (some ca))

  unfoldable pub connect_entrust : EntrustKeyControlKeyStore → Result S
  connect_entrust s = do
    pool ← root_cas s.ca_path
    to.entrust_login (record {
      endpoint = s.endpoint;
      vault_id = s.vault_id;
      box_id = s.box_id;
      username = s.username;
      password = s.password;
      root_cas = pool;
    })

  -- The method Connect of the interface.
  unfoldable pub connect : KeyStore → Result S
  connect (fs_store s) = to.fs_new_store s.path
  connect (encrypted_fs_store s) = to.efs_new_store s.master_key_path s.master_key_cipher s.path
  connect (vault_store s) = connect_vault s
  connect (fortanix_store s) = to.fortanix_connect (fortanix_config_of s)
  connect (key_secure_store s) = to.gemalto_connect (gemalto_config_of s)
  connect (gcp_store s) = to.gcp_connect (gcp_config_of s)
  connect (aws_store s) = to.aws_connect (aws_config_of s)
  connect (azure_store s) = connect_azure s
  connect (entrust_store s) = connect_entrust s
