-- ===== src/Conf/Stores.antt =====
-- ymlToKeyStore of kesconf/config.go: the key store that a configuration file describes. Each `if`
-- of the function takes and returns the variable `keystore`.
pub mod Chosen
pub mod Valid
use kes.Prelude.{not, ◌&&◌, Option, none, some, is_some, text_eq}
use mathlib.Core.Option
use kes.Api.Errors.{Result, ok, err, require, plain, message, Error, ◌>>=◌, ◌>>◌}
use kes.Conf.Sections.{KeyStoreSections}
use kes.Conf.File.{KeyStore}
use kes.Conf.Checks.{Os}
use kes.Conf.Vault.{read_fs, read_encrypted_fs, read_vault}
use kes.Conf.Clouds.{
  read_sdkms, read_key_secure, read_secret_manager, read_secrets_manager, read_key_vault,
  read_key_control,
}

abbrev pub more_than_one : Error
more_than_one =
    plain (message "kesconf: invalid keystore config: more than once keystore specified")

-- One `if` of the function: a section that is there, when no earlier section has set `keystore`.
unfoldable pub read_section :
    {A : Type 0} → Option A → (A → Result KeyStore) → Option KeyStore → Result (Option KeyStore)
read_section none read keystore = ok keystore
read_section (some y) read keystore = do
  require (not (is_some keystore)) more_than_one
  store ← read y
  ok (some store)

-- y.X != nil && y.X.Y != nil
abbrev pub inner : {A : Type 0} → Option (Option A) → Option A
inner none = none
inner (some y) = y

abbrev pub specified : Option KeyStore → Result KeyStore
specified none = err (plain (message "kesconf: no keystore specified"))
specified (some store) = ok store

unfoldable pub yml_to_key_store : Os → KeyStoreSections → Result KeyStore
yml_to_key_store os y =
    read_section y.fs read_fs none
    >>= read_section y.encrypted_fs read_encrypted_fs
    >>= read_section y.vault (read_vault os)
    >>= read_section (inner y.fortanix) read_sdkms
    >>= read_section (inner y.gemalto) read_key_secure
    >>= read_section (inner y.gcp) read_secret_manager
    >>= read_section (inner y.aws) read_secrets_manager
    >>= read_section (inner y.azure) read_key_vault
    >>= read_section (inner y.entrust) read_key_control
    >>= specified
