-- ===== src/KeyStore/Encrypted/Sealed.antt =====
-- The encrypted directory store: its key, and Create and Get together.
use kes.Prelude.{
  Option, ◌≡◌, ◌≤◌, false, true, none, take, length, take-length, Text, text_eq, arith,
}
use kes.Prelude.Maps.{lookup}
use kes.Api.Errors.{ok}
use kes.Crypto.Keys.{SecretKey, parse_secret_key_type, new_secret_key}
use kes.Crypto.Ciphertext.{Readers}
use kes.Crypto.Cipher.{Aead, Primitives, rand_size, check_key, new_aead, encrypt}
use kes.Crypto.Cipher.RoundTrip.{IsAead, looks_legacy, decrypt-encrypt}
use kes.KeyStore.Files
use kes.KeyStore.Files.{Directory, Faults, valid_name, max_size}
use kes.KeyStore.Files.Effects.{no_faults, get_created}
use kes.KeyStore.Encrypted.{master_key, load_master_key, context, create, get}

files_create :
    (name value : Text) (dir : Directory)
    → valid_name name ≡ true
    → lookup name dir ≡ none
    → (Files.create no_faults name value dir).1 ≡ none
unfolding Files.create Files.create_file
files_create name value dir valid absent = ground arith

-- What Create encrypts into a new file, Get reads and decrypts, for a valid name without a file and
-- no failure of a file operation: with 28 random bytes and a cipher that is an AEAD, where the
-- ciphertext has at most 2^20 bytes and its first byte is not that of a previous format.
pub create_readable :
    (p : Primitives) (r : Readers) (s : SecretKey) (bytes name value ciphertext : Text)
    (aead : Aead) (dir : Directory)
    → length bytes ≡ rand_size
    → new_aead p s (take 16 bytes) ≡ ok aead
    → IsAead aead
    → encrypt p s (ok bytes) value (context name) ≡ ok ciphertext
    → looks_legacy ciphertext ≡ false
    → length ciphertext ≤ max_size
    → valid_name name ≡ true
    → lookup name dir ≡ none
    → (dir' : Directory) × (create p s (ok bytes) no_faults name value dir ≡ ok (dir', none))
      × (get p r s no_faults name dir' ≡ ok value)
unfolding create get
create_readable p r s bytes name value ciphertext aead dir n a law e l small valid absent = (
  (Files.create no_faults name ciphertext dir).0,
  rw e (cc (files_create name ciphertext dir valid absent)),
  rw (get_created name ciphertext dir valid absent, take-length max_size ciphertext small)
      (decrypt-encrypt p r s bytes value (context name) ciphertext aead n a law e l),
)

-- A key that loadMasterKey returns is one that Encrypt and Decrypt accept: it is initialised, and
-- its cipher is allowed in FIPS mode where that is on.
pub load_master_key-check_key :
    (p : Primitives) (f : Faults) (file : Option Text) (key_path key_cipher : Text) (s : SecretKey)
    → load_master_key p f file key_path key_cipher ≡ ok s
    → check_key p s ≡ ok tt
unfolding load_master_key master_key check_key parse_secret_key_type new_secret_key
load_master_key-check_key p f file key_path key_cipher s h = ground arith
