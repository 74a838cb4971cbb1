-- ===== src/Crypto/Keys/Messages.antt =====
-- Keys of internal/crypto/key.go and their protobuf messages: which keys are valid.
use kes.Prelude.{◌≡◌, true, Option, none, some, arith, length, text_eq}
use kes.Api.Errors.{>>=-eq-ok, ok, ◌>>=◌}
use kes.Crypto.Keys.{
  SecretKey, HmacKey, KeyVersion, PbSecretKey, PbHmacKey, PbKeyVersion, sha256, is_cipher,
  secret_key_marshal, secret_key_unmarshal, hmac_key_marshal, hmac_key_unmarshal,
  key_version_marshal, key_version_unmarshal,
}

-- A secret key that the program makes: initialised, of a known cipher, 32 bytes long.
pub record IsSecretKey (s : SecretKey) : Type 0 where
  pub is_set : s.initialized ≡ true
  pub known : is_cipher s.cipher ≡ true
  pub size : length s.key ≡ 32

pub record IsHmacKey (k : HmacKey) : Type 0 where
  pub is_set : k.initialized ≡ true
  pub known : k.hash ≡ sha256
  pub size : length k.key ≡ 32

pub record IsKeyVersion (v : KeyVersion) : Type 0 where
  pub key : IsSecretKey v.key
  pub hmac_key : IsHmacKey v.hmac_key

secret_key_roundtrip :
    (s : SecretKey)
    → IsSecretKey s
    → (secret_key_marshal s >>= λ v. secret_key_unmarshal (some v)) ≡ ok s
unfolding secret_key_marshal secret_key_unmarshal
secret_key_roundtrip s h = ground arith

hmac_key_roundtrip :
    (k : HmacKey) → IsHmacKey k → (hmac_key_marshal k >>= λ v. hmac_key_unmarshal (some v)) ≡ ok k
unfolding hmac_key_marshal hmac_key_unmarshal
hmac_key_roundtrip k h = ground arith

-- A key version with a valid secret key and a valid HMAC key is marshalled without an error, and
-- unmarshalling the message gives the key version back.
pub key_version_roundtrip :
    (v : KeyVersion)
    → IsKeyVersion v
    → (m : PbKeyVersion) × (key_version_marshal v ≡ ok m) × (key_version_unmarshal m ≡ ok v)
unfolding key_version_marshal key_version_unmarshal secret_key_marshal secret_key_unmarshal
    hmac_key_marshal hmac_key_unmarshal
key_version_roundtrip v h = (
  record {
    key = some (record { key = v.key.key; type = v.key.cipher });
    hmac_key = some (record { key = v.hmac_key.key; hash = v.hmac_key.hash });
    created_at = v.created_at;
    created_by = v.created_by;
  },
  ground arith,
  ground arith,
)

secret_key-valid :
    (o : Option PbSecretKey) (s : SecretKey) → secret_key_unmarshal o ≡ ok s → IsSecretKey s
unfolding secret_key_unmarshal
secret_key-valid none s h = cc
secret_key-valid (some v) s h = record {
  is_set = ground arith;
  known = ground arith;
  size = ground arith;
}

hmac_key-valid : (o : Option PbHmacKey) (k : HmacKey) → hmac_key_unmarshal o ≡ ok k → IsHmacKey k
unfolding hmac_key_unmarshal
hmac_key-valid none k h = cc
hmac_key-valid (some v) k h = record {
  is_set = ground arith;
  known = ground arith;
  size = ground arith;
}

-- Whatever message a key version is read from, if it is read then its keys are valid.
pub unmarshal-IsKeyVersion :
    (m : PbKeyVersion) (v : KeyVersion) → key_version_unmarshal m ≡ ok v → IsKeyVersion v
unfolding key_version_unmarshal
unmarshal-IsKeyVersion m v h =
    let (s, es, rest) = >>=-eq-ok (secret_key_unmarshal m.key) _ h in
    let (k, ek, last) = >>=-eq-ok (hmac_key_unmarshal m.hmac_key) _ rest in
    record {
      key = ground (arith, secret_key-valid m.key s es);
      hmac_key = ground (arith, hmac_key-valid m.hmac_key k ek);
    }
