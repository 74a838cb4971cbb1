-- ===== src/Crypto/Encoding/RoundTrip.antt =====
-- EncodeKeyVersion and ParseKeyVersion of internal/crypto/key.go together.
use kes.Prelude.{
  ℕ, ◌≡◌, inl, inr, true, false, none, [], arith, if◌then◌else◌, Bool-cases, Text, text_beq,
  text_eq,
}
use kes.Api.Errors.{ok, panic, >>=-eq-ok}
use kes.Crypto.Keys.{
  SecretKey, KeyVersion, PbKeyVersion, is_cipher, aes256, parse_secret_key_type, new_secret_key,
  key_version_marshal, key_version_unmarshal, secret_key_unmarshal, nil_pointer,
}
use kes.Crypto.Keys.Messages.{
  IsSecretKey, IsKeyVersion, key_version_roundtrip, unmarshal-IsKeyVersion,
}
use kes.Crypto.Encoding.{Codec, encode_key_version, parse_json, parse_binary, parse_key_version}

-- What the encoders are documented to do, at one key version: its message is encoded, both layers
-- decode what they encode, and the base64 text of the message is no JSON.
pub record Encodes (c : Codec) (m : PbKeyVersion) (proto : Text) : Type 0 where
  pub marshals : c.proto_marshal m ≡ ok proto
  pub unmarshals : c.proto_unmarshal proto ≡ ok m
  pub base64 : c.base64_decode (c.base64_encode proto) ≡ ok proto
  pub no_json : c.json_valid (c.base64_encode proto) ≡ false

module _ (c : Codec) where
  -- A key version with valid keys is encoded, and parsing the encoding gives it back, if the
  -- encoders do what they are documented to do with its message.
  pub parse-encode :
      (v : KeyVersion) (m : PbKeyVersion) (proto : Text)
      → IsKeyVersion v
      → key_version_marshal v ≡ ok m
      → Encodes c m proto
      → (encode_key_version c v ≡ ok (c.base64_encode proto))
        × (parse_key_version c (c.base64_encode proto) ≡ ok v)
  unfolding encode_key_version parse_key_version
  parse-encode v m proto h e l =
      let (m', em, eu) = key_version_roundtrip v h in
      let u : key_version_unmarshal m ≡ ok v = cc (em, eu) in
      (simp (e, l.marshals), simp (l.no_json, l.base64, l.unmarshals, u))

  new_secret_key-valid :
      (cipher : ℕ) (bytes : Text) (s : SecretKey)
      → is_cipher cipher ≡ true
      → new_secret_key cipher bytes ≡ ok s
      → IsSecretKey s
  unfolding new_secret_key
  new_secret_key-valid cipher bytes s k h = record {
    is_set = ground arith;
    known = ground arith;
    size = ground arith;
  }

  cipher-known :
      (type : Text) (cipher : ℕ)
      → (if text_beq type [] then ok aes256 else parse_secret_key_type type) ≡ ok cipher
      → is_cipher cipher ≡ true
  unfolding parse_secret_key_type
  cipher-known type cipher h = elim (Bool-cases (text_beq type [])) [
    | inl t ↦ ground arith
    | inr t ↦ ground arith
  ]

  parse_json-valid : (b : Text) (v : KeyVersion) → parse_json c b ≡ ok v → IsSecretKey v.key
  unfolding parse_json
  parse_json-valid b v h =
      let (value, e0, h0) = >>=-eq-ok (c.json_unmarshal b) _ h in
      let (cipher, e1, h1) =
        >>=-eq-ok (if text_beq value.type [] then ok aes256 else parse_secret_key_type value.type) _
          h0 in
      let (key, e2, h2) = >>=-eq-ok (new_secret_key cipher value.bytes) _ h1 in
      ground
        (arith, new_secret_key-valid cipher value.bytes key (cipher-known value.type cipher e1) e2)

  parse_binary-valid : (b : Text) (v : KeyVersion) → parse_binary c b ≡ ok v → IsSecretKey v.key
  unfolding parse_binary
  parse_binary-valid b v h =
      let (raw, e0, h0) = >>=-eq-ok (c.base64_decode b) _ h in
      let (m, e1, h1) = >>=-eq-ok (c.proto_unmarshal raw) _ h0 in
      (unmarshal-IsKeyVersion m v h1).key

  -- Whatever bytes a key store returns, in either format: if they are parsed, the secret key is
  -- initialised, of a known cipher and 32 bytes long.
  pub parse-valid : (b : Text) (v : KeyVersion) → parse_key_version c b ≡ ok v → IsSecretKey v.key
  unfolding parse_key_version
  parse-valid b v h = elim (Bool-cases (c.json_valid b)) [
    | inl t ↦ parse_json-valid b v (rw t at h)
    | inr t ↦ parse_binary-valid b v (rw t at h)
  ]

  -- A stored value that is no JSON, is valid base64 and decodes to a message with no secret key
  -- makes the parser panic on a nil pointer.
  pub parse_panics :
      (b raw : Text) (m : PbKeyVersion)
      → c.json_valid b ≡ false
      → c.base64_decode b ≡ ok raw
      → c.proto_unmarshal raw ≡ ok m
      → m.key ≡ none
      → parse_key_version c b ≡ panic nil_pointer
  unfolding parse_key_version key_version_unmarshal secret_key_unmarshal
  parse_panics b raw m j d u k = simp (j, d, u) (rw (k, secret_key_unmarshal))
