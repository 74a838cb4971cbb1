-- ===== src/Conf/Connect/Admitted.antt =====
-- A key store that ymlToKeyStore of kesconf/config.go returns passes the tests that its Connect of
-- kesconf/file.go makes before the call to the back end.
use kes.Prelude.{◌≡◌, refl, true, arith}
use kes.Api.Errors.{Result, ok}
use kes.Conf.File.{
  KeyStore, fs_store, encrypted_fs_store, vault_store, fortanix_store, key_secure_store, gcp_store,
  aws_store, azure_store, entrust_store,
}
use kes.Conf.Sections.{KeyStoreSections}
use kes.Conf.Checks.{Os}
use kes.Conf.Stores.{yml_to_key_store}
use kes.Conf.Stores.Valid.{valid_store, yml_to_key_store-valid}
use kes.Conf.Backends.{Backends}
use kes.Conf.Connect.{
  vault_config_of, fortanix_config_of, gemalto_config_of, gcp_config_of, aws_config_of,
  azure_credential_of, azure_connect_with, connect_vault, connect_azure, connect_entrust, connect,
}

module _ {S Pool Token : Type 0} (to : Backends S Pool Token) where
  -- The call to the back end alone.
  abbrev pub call_backend : KeyStore → Result S
  call_backend (fs_store s) = to.fs_new_store s.path
  call_backend (encrypted_fs_store s) =
      to.efs_new_store s.master_key_path s.master_key_cipher s.path
  call_backend (vault_store s) = to.vault_connect (vault_config_of s)
  call_backend (fortanix_store s) = to.fortanix_connect (fortanix_config_of s)
  call_backend (key_secure_store s) = to.gemalto_connect (gemalto_config_of s)
  call_backend (gcp_store s) = to.gcp_connect (gcp_config_of s)
  call_backend (aws_store s) = to.aws_connect (aws_config_of s)
  call_backend (azure_store s) =
      azure_connect_with to s.endpoint (to.new_credential (azure_credential_of s))
  call_backend (entrust_store s) = connect_entrust to s

  connect-valid :
      (store : KeyStore) → valid_store store ≡ true → connect to store ≡ call_backend store
  unfolding connect connect_vault connect_azure
  connect-valid (fs_store s) h = refl
  connect-valid (encrypted_fs_store s) h = refl
  connect-valid (vault_store s) h = ground arith
  connect-valid (fortanix_store s) h = refl
  connect-valid (key_secure_store s) h = refl
  connect-valid (gcp_store s) h = refl
  connect-valid (aws_store s) h = refl
  connect-valid (azure_store s) h = ground arith
  connect-valid (entrust_store s) h = refl

  -- The Connect of a key store that a configuration file yields only calls the back end: none of its
  -- own tests refuses the key store.
  pub connect-yml_to_key_store :
      (os : Os) (y : KeyStoreSections) (store : KeyStore)
      → yml_to_key_store os y ≡ ok store
      → connect to store ≡ call_backend store
  connect-yml_to_key_store os y store h = connect-valid store (yml_to_key_store-valid os y store h)
