-- ===== src/Crypto/Cipher.antt =====
-- Encrypt and Decrypt of SecretKey (internal/crypto/key.go), over the primitives of the standard
-- library and golang.org/x/crypto.
pub mod RoundTrip
use kes.Prelude.{
  ℕ, ◌-◌, Bool, not, ◌||◌, Option, none, some, ◌++◌, arith, leb, ◌==◌, if◌then◌else◌, length, take,
  drop, Text, text_eq,
}
use kes.Api.Errors.{
  Result, ok, err, panic, ◌>>=◌, ◌>>◌, require, assert, plain, message, sdk, decrypt_failed,
}
use kes.Crypto.Keys.{SecretKey, aes256, chacha20}
use kes.Crypto.Ciphertext.{Readers, parse_ciphertext}

-- A cipher.AEAD: nonce, text, associated data. `none` is a failed authentication.
pub record Aead : Type 0 where
  pub seal : Text → Text → Text → Text
  pub open_sealed : Text → Text → Text → Option Text

pub record Primitives : Type 0 where
  pub hmac_sha256 : Text → Text → Text
  -- aes.NewCipher and cipher.NewGCM
  pub aes_gcm : Text → Result Aead
  pub hchacha20 : Text → Text → Result Text
  pub chacha20_poly1305 : Text → Result Aead
  -- fips.Enabled
  pub fips : Bool

abbrev pub rand_size : ℕ
rand_size = 28

-- ciphertext[:len(ciphertext)-randSize] and ciphertext[len(ciphertext)-randSize:]
abbrev pub sealed_part : Text → Text
sealed_part b = take (length b - rand_size) b

abbrev pub random_part : Text → Text
random_part b = drop (length b - rand_size) b

module _ (p : Primitives) where
  -- The texts of the panics are those of Encrypt, less the number of the cipher; those of Decrypt
  -- differ by a word.
  unfoldable pub check_key : SecretKey → Result (Unit {0})
  check_key s = do
    assert s.initialized (message "crypto: usage of empty or uninitialized secret key")
    require (not p.fips || s.cipher == aes256)
        (plain (message "crypto: cipher not available in FIPS mode"))

  -- The switch that derives the key of one message from the iv.
  unfoldable pub new_aead : SecretKey → Text → Result Aead
  new_aead s iv =
      if s.cipher == aes256
      then p.aes_gcm (p.hmac_sha256 s.key iv)
      else if s.cipher == chacha20
      then (do key ← p.hchacha20 s.key iv; p.chacha20_poly1305 key)
      else panic (message "crypto: unknown secret key cipher")

  -- `random` is what rand.Read gives for the 28 random bytes.
  unfoldable pub encrypt : SecretKey → Result Text → Text → Text → Result Text
  encrypt s random plaintext associated_data = do
    check_key s
    bytes ← random
    aead ← new_aead s (take 16 bytes)
    ok (aead.seal (drop 16 bytes) plaintext associated_data ++ bytes)

  -- `if err != nil { return nil, kes.ErrDecrypt }`
  abbrev pub opened : Option Text → Result Text
  opened none = err (sdk decrypt_failed)
  opened (some plaintext) = ok plaintext

  unfoldable pub decrypt_parsed : SecretKey → Text → Text → Result Text
  decrypt_parsed s ciphertext associated_data = do
    require (not (leb (length ciphertext) rand_size)) (sdk decrypt_failed)
    aead ← new_aead s (take 16 (random_part ciphertext))
    opened (
        aead.open_sealed (drop 16 (random_part ciphertext)) (sealed_part ciphertext)
          associated_data)

  unfoldable pub decrypt : Readers → SecretKey → Text → Text → Result Text
  decrypt r s ciphertext associated_data = do
    check_key s
    decrypt_parsed s (parse_ciphertext r ciphertext) associated_data
