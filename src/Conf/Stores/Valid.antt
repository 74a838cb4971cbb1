-- ===== src/Conf/Stores/Valid.antt =====
-- What holds of every key store that ymlToKeyStore of kesconf/config.go returns.
use kes.Prelude.{
  ◌≡◌, refl, Bool, true, false, not, ◌&&◌, ◌||◌, Option, none, some, List, [], ◌∷◌, is_some, arith,
  Text, text_beq, All,
}
use kes.Api.Errors.{Result, ok, err, panic, Message}
use kes.Conf.Sections.{
  FsSection, EncryptedFsSection, VaultSection, SdkmsSection, KeySecureSection, SecretManagerSection,
  SecretsManagerSection, KeyVaultSection, KeyControlSection, KeyStoreSections,
}
use kes.Conf.File.{
  VaultAppRoleAuth, VaultKubernetesAuth, VaultTransit, KeyStore, fs_store, encrypted_fs_store,
  vault_store, fortanix_store, key_secure_store, gcp_store, aws_store, azure_store, entrust_store,
  VaultKeyStore, AzureKeyVaultKeyStore,
}
use kes.Conf.Checks.{Os}
use kes.Conf.Vault.{read_fs, read_encrypted_fs, read_vault}
use kes.Conf.Clouds.{
  read_sdkms, read_key_secure, read_secret_manager, read_secrets_manager, read_key_vault,
  read_key_control,
}
use kes.Conf.Stores.Chosen.{alone, configured, chosen, yml_to_key_store-chosen}
use mathlib.Core.Path.{subst}
use kes.Conf.Stores.{inner, yml_to_key_store}

abbrev pub given : Text → Bool
given t = not (text_beq t [])

abbrev pub holds_if_some : {A : Type 0} → (A → Bool) → Option A → Bool
holds_if_some test none = true
holds_if_some test (some x) = test x

abbrev pub differ : Bool → Bool → Bool
differ true b = not b
differ false b = b

-- One way to log in, with its secrets, and a certificate with its private key or neither.
abbrev pub valid_vault : VaultKeyStore → Bool
valid_vault s =
    given s.endpoint
    && (differ (is_some s.app_role) (is_some s.kubernetes)
        && (holds_if_some (λ (a : VaultAppRoleAuth). given a.id && given a.secret) s.app_role
            && (holds_if_some (λ (k : VaultKubernetesAuth). given k.jwt) s.kubernetes
                && (holds_if_some (λ (t : VaultTransit). given t.key_name) s.transit
                    && not (differ (given s.private_key) (given s.certificate))))))

-- A client secret with its tenant and client, a managed identity, or neither.
abbrev pub valid_azure : AzureKeyVaultKeyStore → Bool
valid_azure s =
    let secret = given s.tenant_id && (given s.client_id && given s.client_secret) in
    let no_secret = not (given s.tenant_id || (given s.client_id || given s.client_secret)) in
    given s.endpoint && ((secret && not (given s.managed_identity_client_id)) || no_secret)

-- The fields that ymlToKeyStore asks for, kind by kind. A key store of GCP needs no endpoint and no
-- credentials, and one of AWS needs no credentials.
abbrev pub valid_store : KeyStore → Bool
valid_store (fs_store s) = given s.path
valid_store (encrypted_fs_store s) =
    given s.master_key_path && (given s.master_key_cipher && given s.path)
valid_store (vault_store s) = valid_vault s
valid_store (fortanix_store s) = given s.endpoint && given s.api_key
valid_store (key_secure_store s) = given s.endpoint && given s.token
valid_store (gcp_store s) = given s.project_id
valid_store (aws_store s) = given s.endpoint && given s.region
valid_store (azure_store s) = valid_azure s
valid_store (entrust_store s) =
    given s.endpoint
    && (given s.vault_id && (given s.box_id && (given s.username && given s.password)))

-- The section Entrust.KeyControl has no credentials.
abbrev pub no_login : KeyStoreSections → Bool
no_login y = elim (inner y.entrust) [ none ↦ false | some c ↦ not (is_some c.login) ]

-- What a section says on its own: a key store that is valid, or an error. It panics for want of
-- credentials only.
abbrev Sound : Bool → Result KeyStore → Type 0
Sound unset (panic why) = unset ≡ true
Sound unset (err e) = Unit
Sound unset (ok store) = valid_store store ≡ true

read_fs-Sound : (unset : Bool) (y : FsSection) → Sound unset (read_fs y)
unfolding read_fs
read_fs-Sound unset y = ground arith

read_encrypted_fs-Sound :
    (unset : Bool) (y : EncryptedFsSection) → Sound unset (read_encrypted_fs y)
unfolding read_encrypted_fs
read_encrypted_fs-Sound unset y = ground arith

read_vault-Sound : (os : Os) (unset : Bool) (y : VaultSection) → Sound unset (read_vault os y)
unfolding read_vault
read_vault-Sound os unset y = ground arith

read_sdkms-Sound : (unset : Bool) (y : SdkmsSection) → Sound unset (read_sdkms y)
unfolding read_sdkms
read_sdkms-Sound unset y = ground arith

read_key_secure-Sound : (unset : Bool) (y : KeySecureSection) → Sound unset (read_key_secure y)
unfolding read_key_secure
read_key_secure-Sound unset y = ground arith

read_secret_manager-Sound :
    (unset : Bool) (y : SecretManagerSection) → Sound unset (read_secret_manager y)
unfolding read_secret_manager
read_secret_manager-Sound unset y = ground arith

read_secrets_manager-Sound :
    (unset : Bool) (y : SecretsManagerSection) → Sound unset (read_secrets_manager y)
unfolding read_secrets_manager
read_secrets_manager-Sound unset y = ground arith

read_key_vault-Sound : (unset : Bool) (y : KeyVaultSection) → Sound unset (read_key_vault y)
unfolding read_key_vault
read_key_vault-Sound unset y = ground arith

read_key_control-Sound :
    (y : KeyControlSection) → Sound (not (is_some y.login)) (read_key_control y)
unfolding read_key_control
read_key_control-Sound y = ground arith

alone-Sound :
    {A : Type 0} (unset : Bool) (o : Option A) (read : A → Result KeyStore)
    → ((y : A) → o ≡ some y → Sound unset (read y))
    → (rs : List (Result KeyStore)) → All (Sound unset) rs
    → All (Sound unset) (alone o read rs)
unfolding alone
alone-Sound unset none read h rs q = q
alone-Sound unset (some y) read h rs q = (h y refl, q)

configured-Sound : (os : Os) (y : KeyStoreSections) → All (Sound (no_login y)) (configured os y)
configured-Sound os y =
    let u = no_login y in
    let entrust : (c : KeyControlSection)
        → inner y.entrust ≡ some c
        → Sound u (read_key_control c) =
      λ c h. rw (no_login, h) (read_key_control-Sound c) in
    alone-Sound u y.fs _ (λ s h. read_fs-Sound u s) _
      (alone-Sound u y.encrypted_fs _ (λ s h. read_encrypted_fs-Sound u s) _
        (alone-Sound u y.vault _ (λ s h. read_vault-Sound os u s) _
          (alone-Sound u (inner y.fortanix) _ (λ s h. read_sdkms-Sound u s) _
            (alone-Sound u (inner y.gemalto) _ (λ s h. read_key_secure-Sound u s) _
              (alone-Sound u (inner y.gcp) _ (λ s h. read_secret_manager-Sound u s) _
                (alone-Sound u (inner y.aws) _ (λ s h. read_secrets_manager-Sound u s) _
                  (alone-Sound u (inner y.azure) _ (λ s h. read_key_vault-Sound u s) _
                    (alone-Sound u (inner y.entrust) read_key_control entrust [] tt))))))))

chosen-Sound :
    (unset : Bool) (rs : List (Result KeyStore)) → All (Sound unset) rs → Sound unset (chosen rs)
chosen-Sound unset [] q = tt
chosen-Sound unset (r ∷ []) q = q.0
chosen-Sound unset (panic why ∷ r ∷ rs) q = q.0
chosen-Sound unset (err e ∷ r ∷ rs) q = tt
chosen-Sound unset (ok s ∷ r ∷ rs) q = tt

yml_to_key_store-Sound :
    (os : Os) (y : KeyStoreSections) → Sound (no_login y) (yml_to_key_store os y)
yml_to_key_store-Sound os y =
    rw (yml_to_key_store-chosen os y)
      (chosen-Sound (no_login y) (configured os y) (configured-Sound os y))

-- A key store that ymlToKeyStore returns has, kind by kind: a directory its path; an encrypted
-- directory its path, master key path and cipher; Vault its endpoint, exactly one way to log in, with
-- the ID and secret of an AppRole or the JWT of Kubernetes, the key name of its transit engine if it
-- has one, and a private key exactly with a certificate; Fortanix its endpoint and API key; KeySecure
-- its endpoint and token; GCP its project ID; AWS its endpoint and region; Azure its endpoint and
-- either a tenant, client ID and client secret and no managed identity, or none of these three;
-- Entrust its endpoint, vault ID, box ID, username and password.
pub yml_to_key_store-valid :
    (os : Os) (y : KeyStoreSections) (store : KeyStore)
    → yml_to_key_store os y ≡ ok store
    → valid_store store ≡ true
yml_to_key_store-valid os y store h = subst (Sound (no_login y)) h (yml_to_key_store-Sound os y)

-- The function panics only where the section of Entrust KeyControl has no credentials.
pub yml_to_key_store-panic :
    (os : Os) (y : KeyStoreSections) (why : Message)
    → yml_to_key_store os y ≡ panic why
    → no_login y ≡ true
yml_to_key_store-panic os y why h = subst (Sound (no_login y)) h (yml_to_key_store-Sound os y)
