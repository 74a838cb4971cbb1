-- ===== src/Tests/Ciphers.antt =====
-- Keys, their encodings and the ciphertexts.
use kes.Prelude.{◌≡◌, refl, [], ◌∷◌, ◌++◌, take, Text, codes, text_eq}
use kes.Api.Errors.{ok}
use kes.Crypto.Keys.{
  PbKeyVersion, key_version_marshal, secret_key_marshal, hmac_key_marshal, key_version_unmarshal,
}
use kes.Crypto.Keys.Messages.{key_version_roundtrip}
use kes.Crypto.Encoding.{parse_key_version}
use kes.Crypto.Encoding.RoundTrip.{parse-encode}
use kes.Crypto.Ciphertext.{Ciphertext, unmarshal_json}
use kes.Crypto.Cipher.{new_aead, check_key, encrypt, decrypt}
use kes.Crypto.Cipher.RoundTrip.{decrypt-encrypt}
use kes.Tests.Data.{
  primitives, readers, secret_key, key_version, key_version-IsKeyVersion, key_message, codec,
  codec-Encodes, bytes16, nonce12, random28, plain_aead, plain_aead-IsAead,
}

aead : new_aead primitives secret_key (take 16 random28) ≡ ok plain_aead
unfolding new_aead
aead = refl

checked : check_key primitives secret_key ≡ ok tt
unfolding check_key
checked = refl

abbrev sealed : Text
sealed = bytes16 ++ codes "text" ++ random28

encrypted : encrypt primitives secret_key (ok random28) (codes "text") (codes "context") ≡ ok sealed
unfolding encrypt check_key new_aead
encrypted = refl

decrypt-encrypt_example :
    decrypt primitives readers secret_key sealed (codes "context") ≡ ok (codes "text")
decrypt-encrypt_example =
    decrypt-encrypt primitives readers secret_key random28 (codes "text") (codes "context") sealed
      plain_aead refl aead plain_aead-IsAead encrypted refl

abbrev old : Ciphertext
old = record { iv = bytes16; nonce = nonce12; bytes = bytes16 ++ codes "m" }

old_read : unmarshal_json readers (0x7b ∷ []) ≡ ok old
unfolding unmarshal_json
old_read = refl

key_version_roundtrip_example :
    (m : PbKeyVersion) × (key_version_marshal key_version ≡ ok m)
    × (key_version_unmarshal m ≡ ok key_version)
key_version_roundtrip_example = key_version_roundtrip key_version key_version-IsKeyVersion

marshalled : key_version_marshal key_version ≡ ok key_message
unfolding key_version_marshal secret_key_marshal hmac_key_marshal
marshalled = refl

parsed : parse_key_version codec bytes16 ≡ ok key_version
parsed =
    (parse-encode codec key_version key_message bytes16 key_version-IsKeyVersion marshalled
      codec-Encodes).1
