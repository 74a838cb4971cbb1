-- ===== src/Tests/Files.antt =====
-- The key stores in a directory with one file.
use kes.Prelude.{◌≡◌, refl, none, some, [], ◌∷◌, ◌++◌, take, Text, codes, text_eq, arith}
use kes.Prelude.Maps.{lookup}
use kes.Api.Errors.{Error, ok, plain, message}
use kes.Crypto.Cipher.{encrypt, check_key, new_aead}
use kes.KeyStore.Encrypted
use kes.KeyStore.Encrypted.{context}
use kes.KeyStore.Encrypted.Sealed.{create_readable}
use kes.KeyStore.Files
use kes.KeyStore.Files.{Directory, Faults}
use kes.KeyStore.Files.Effects.{no_faults, create_failed}
use kes.Tests.Data.{
  primitives, readers, secret_key, bytes16, random28, plain_aead, plain_aead-IsAead,
}

abbrev one_file : Directory
one_file = (codes "my-key", codes "secret") ∷ []

abbrev too_many_files : Error
too_many_files = plain (message "too many open files")

abbrev no_space : Faults
no_space = record no_faults { write = some too_many_files }

create_failed_example :
    lookup (codes "key") ((Files.create no_space (codes "key") (codes "value") one_file).0)
    ≡ lookup (codes "key") one_file
unfolding Files.create Files.create_file Files.remove_file Files.valid_name lookup
create_failed_example =
    create_failed no_space (codes "key") (codes "value") one_file too_many_files refl refl refl
      (codes "key")

abbrev sealed : Text
sealed = bytes16 ++ codes "value" ++ random28

aead : new_aead primitives secret_key (take 16 random28) ≡ ok plain_aead
unfolding new_aead
aead = refl

encrypted :
    encrypt primitives secret_key (ok random28) (codes "value") (context (codes "key")) ≡ ok sealed
unfolding encrypt check_key new_aead
encrypted = refl

create_readable_example :
    (dir' : Directory) × (Encrypted.create primitives secret_key
        (ok random28)
        no_faults
        (codes "key")
        (codes "value")
        one_file
      ≡ ok (dir', none))
    × (Encrypted.get primitives readers secret_key no_faults (codes "key") dir'
        ≡ ok (codes "value"))
unfolding Files.valid_name lookup
create_readable_example =
    create_readable primitives readers secret_key random28 (codes "key") (codes "value") sealed
      plain_aead one_file refl aead plain_aead-IsAead encrypted refl (omega arith) refl refl
