-- ===== src/KeyStore/Encrypted.antt =====
-- internal/keystore/efs/efs.go: the directory store with its values under a master key.
pub mod Sealed
use kes.Prelude.{
  not, ◌&&◌, Option, none, some, [], ◌∷◌, ◌++◌, ◌+◌, ◌==◌, length, take, ℤ, Text, codes, List,
  arith, text_eq,
}
use kes.Api.Errors.{Error, Result, ok, err, panic, ◌>>=◌, ◌>>◌, require, plain}
use kes.Crypto.Keys.{SecretKey, secret_key_size, chacha20, parse_secret_key_type, new_secret_key}
use kes.Crypto.Ciphertext.{Readers}
use kes.Crypto.Cipher.{Primitives, encrypt, decrypt}
use kes.KeyStore.Files
use kes.KeyStore.Files.{Directory, Faults, PathStat, fail_first}

-- The checks of loadMasterKey on what it has read.
unfoldable pub master_key : Primitives → Text → Text → Result SecretKey
master_key p value key_cipher = do
  require (length value == secret_key_size)
      (plain (record { format = "invalid master key size for '%s'"; args = key_cipher ∷ [] }))
  cipher ← parse_secret_key_type key_cipher
  require (not (cipher == chacha20 && p.fips)) (
      plain (record {
        format = "master key algorithm '%s' not supported by FIPS 140-2";
        args = key_cipher ∷ [];
      }))
  new_secret_key cipher value

-- loadMasterKey; `file` is the content of the file at the path, if there is one.
unfoldable pub load_master_key : Primitives → Faults → Option Text → Text → Text → Result SecretKey
load_master_key p f file key_path key_cipher = fail_first f.open_failure (elim file [
  | none ↦ err (plain (record { format = "master key not found: '%s'"; args = key_path ∷ [] }))
  | some b ↦
      fail_first f.read
        (fail_first f.close (master_key p (take (secret_key_size + 1) b) key_cipher))
])

-- NewStore: the key and the directory of the Store.
unfoldable pub new_store :
    Primitives
    → PathStat
    → Option Error
    → Faults
    → Option Text
    → Text
    → Text
    → Text
    → Result (SecretKey × Text)
new_store p stat make_failure f file key_path key_cipher dir = do
  fs_store ← Files.new_store stat make_failure dir
  key ← load_master_key p f file key_path key_cipher
  ok (key, fs_store)

abbrev pub context : Text → Text
context name = codes "name=" ++ name

abbrev pub store_sealed :
    Faults → Text → Directory → Result Text → Result (Directory × Option Error)
store_sealed f name dir (ok encrypted_value) = ok (Files.create f name encrypted_value dir)
store_sealed f name dir (err e) = ok (dir, some e)
store_sealed f name dir (panic m) = panic m

-- `random` is what rand.Read gives to Encrypt. An error is beside the directory.
unfoldable pub create :
    Primitives
    → SecretKey
    → Result Text
    → Faults
    → Text
    → Text
    → Directory
    → Result (Directory × Option Error)
create p key random f name value dir =
    store_sealed f name dir (encrypt p key random value (context name))

unfoldable pub get : Primitives → Readers → SecretKey → Faults → Text → Directory → Result Text
get p r key f name dir = do
  encrypted_value ← Files.get f name dir
  decrypt p r key encrypted_value (context name)

unfoldable pub delete : Faults → Text → Directory → Directory × Option Error
delete f name dir = Files.delete f name dir

unfoldable pub list : Faults → Text → ℤ → Directory → Result (List Text × Text)
list f prefix n dir = Files.list f prefix n dir
