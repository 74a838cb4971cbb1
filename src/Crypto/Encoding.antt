-- ===== src/Crypto/Encoding.antt =====
-- EncodeKeyVersion and ParseKeyVersion of internal/crypto/key.go, over the encoders of other
-- libraries.
pub mod RoundTrip
use kes.Prelude.{ℕ, Bool, [], arith, if◌then◌else◌, Text, text_beq, text_eq}
use kes.Api.Errors.{Result, ok, ◌>>=◌, ◌>>◌}
use kes.Crypto.Keys.{
  KeyVersion, PbKeyVersion, zero_hmac_key, aes256, parse_secret_key_type, new_secret_key,
  key_version_marshal, key_version_unmarshal,
}

-- The JSON object of key versions in the previous format.
pub record JsonKey : Type 0 where
  pub bytes : Text
  pub type : Text
  pub created_at : ℕ
  pub created_by : Text

-- encoding/json, encoding/base64 and google.golang.org/protobuf.
pub record Codec : Type 0 where
  pub json_valid : Text → Bool
  pub json_unmarshal : Text → Result JsonKey
  pub base64_encode : Text → Text
  pub base64_decode : Text → Result Text
  pub proto_marshal : PbKeyVersion → Result Text
  pub proto_unmarshal : Text → Result PbKeyVersion

module _ (c : Codec) where
  unfoldable pub encode_key_version : KeyVersion → Result Text
  encode_key_version key = do
    m ← key_version_marshal key
    proto ← c.proto_marshal m
    ok (c.base64_encode proto)

  parse_json : Text → Result KeyVersion
  parse_json b = do
    value ← c.json_unmarshal b
    cipher ← if text_beq value.type [] then ok aes256 else parse_secret_key_type value.type
    key ← new_secret_key cipher value.bytes
    ok (record {
      key = key;
      hmac_key = zero_hmac_key;
      created_at = value.created_at;
      created_by = value.created_by;
    })

  parse_binary : Text → Result KeyVersion
  parse_binary b = do raw ← c.base64_decode b; m ← c.proto_unmarshal raw; key_version_unmarshal m

  pub parse_key_version : Text → Result KeyVersion
  unfolding parse_json parse_binary
  parse_key_version b = if c.json_valid b then parse_json b else parse_binary b
