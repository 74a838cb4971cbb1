-- ===== src/Conf/Vault.antt =====
-- ymlToKeyStore of kesconf/config.go: the parts about the file systems and Hashicorp Vault.
use kes.Prelude.{
  nat_eq, not, ◌&&◌, ◌||◌, none, some, [], ◌∷◌, if◌then◌else◌, is_some, Text, text_beq, text_eq,
}
use mathlib.Core.Option
use kes.Prelude.Maps.{contains}
use kes.Api.Errors.{Result, ok, err, plain, ◌>>◌}
use kes.Conf.Sections.{
  FsSection, EncryptedFsSection, TransitSection, AppRoleSection, KubernetesSection, VaultSection,
}
use kes.Conf.File.{
  VaultAppRoleAuth, VaultKubernetesAuth, VaultTransit, KeyStore, fs_store, encrypted_fs_store,
  vault_store,
}
use kes.Conf.Checks.{Os, refuse_if, required, if_present}

unfoldable pub read_fs : FsSection → Result KeyStore
read_fs y = do
  required y.path "kesconf: invalid fs keystore: no path specified"
  ok (fs_store (record { path = y.path.value }))

unfoldable pub read_encrypted_fs : EncryptedFsSection → Result KeyStore
read_encrypted_fs y = do
  required y.master_key_path "kesconf: invalid encryptedfs keystore: no master key path specified"
  required y.master_key_cipher
      "kesconf: invalid encryptedfs keystore: no master key cipher specified"
  required y.path "kesconf: invalid encryptedfs keystore: no path specified"
  ok (
      encrypted_fs_store (record {
        master_key_path = y.master_key_path.value;
        master_key_cipher = y.master_key_cipher.value;
        path = y.path.value;
      }))

abbrev pub check_app_role : AppRoleSection → Result (Unit {0})
check_app_role a = do
  required a.id "kesconf: invalid vault keystore: invalid approle config: no approle ID specified"
  required a.secret
      "kesconf: invalid vault keystore: invalid approle config: no approle secret specified"

-- os.ReadFile of the path of a JWT.
abbrev pub read_jwt : Os → Text → Result (Unit {0})
read_jwt os path = elim (os.read_error path) [
  | none ↦ ok tt
  | some why ↦ err (
      plain (record {
        format = "kesconf: failed to read vault kubernetes JWT from '%s': %v";
        args = path ∷ why ∷ [];
      }))
]

-- A JWT with a path separator is the path of a file, which must be readable.
abbrev pub check_kubernetes : Os → KubernetesSection → Result (Unit {0})
check_kubernetes os k = do
  required k.jwt "kesconf: invalid vault keystore: invalid kubernetes config: no JWT specified"
  if contains b'/' k.jwt.value || contains os.path_separator k.jwt.value
      then read_jwt os k.jwt.value
      else ok tt

abbrev pub check_transit : TransitSection → Result (Unit {0})
check_transit t =
    required t.key_name
      "kesconf: invalid vault keystore: invalid transit config: no key name specified"

abbrev pub app_role_of : AppRoleSection → VaultAppRoleAuth
app_role_of a = record {
  engine = a.engine.value;
  namespace = a.namespace.value;
  id = a.id.value;
  secret = a.secret.value;
}

abbrev pub kubernetes_of : KubernetesSection → VaultKubernetesAuth
kubernetes_of k = record {
  engine = k.engine.value;
  namespace = k.namespace.value;
  role = k.role.value;
  jwt = k.jwt.value;
}

abbrev pub transit_of : TransitSection → VaultTransit
transit_of t = record { engine = t.engine.value; key_name = t.key_name.value }

abbrev pub vault_store_of : VaultSection → KeyStore
vault_store_of y = vault_store (record {
  endpoint = y.endpoint.value;
  namespace = y.namespace.value;
  api_version = y.api_version.value;
  engine = y.engine.value;
  prefix = y.prefix.value;
  app_role = Option.map app_role_of y.app_role;
  kubernetes = Option.map kubernetes_of y.kubernetes;
  transit = Option.map transit_of y.transit;
  private_key = y.tls.private_key.value;
  certificate = y.tls.certificate.value;
  ca_path = y.tls.ca_path.value;
  status_ping = y.status_ping.value;
})

unfoldable pub read_vault : Os → VaultSection → Result KeyStore
read_vault os y =
    let no_key = text_beq y.tls.private_key.value [] in
    let no_certificate = text_beq y.tls.certificate.value [] in
    do
      required y.endpoint "kesconf: invalid vault keystore: no endpoint specified"
      refuse_if (not (is_some y.app_role) && not (is_some y.kubernetes))
          "kesconf: invalid vault keystore: no authentication method specified"
      refuse_if (is_some y.app_role && is_some y.kubernetes)
          "kesconf: invalid vault keystore: more than one authentication method specified"
      if_present y.app_role check_app_role
      if_present y.kubernetes (check_kubernetes os)
      if_present y.transit check_transit
      refuse_if (not no_key && no_certificate)
          "kesconf: invalid vault keystore: invalid tls config: no TLS certificate provided"
      refuse_if (no_key && not no_certificate)
          "kesconf: invalid vault keystore: invalid tls config: no TLS private key provided"
      ok (vault_store_of y)
