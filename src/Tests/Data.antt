-- ===== src/Tests/Data.antt =====
-- Concrete libraries, keys, stores and requests.
use kes.Prelude.{
  refl, true, false, Option, none, some, [], ◌∷◌, ◌++◌, arith, pos, take, drop, Text, codes,
  text_eq,
}
use kes.Cache.Cow
use kes.Cache.Cow.{Cow}
use kes.Api.Errors.{Result, ok}
use kes.Auth.Requests.{HttpRequest, Request, Policy, Identification}
use kes.Crypto.Keys.{SecretKey, KeyVersion, PbKeyVersion, sha256, aes256}
use kes.Crypto.Encoding.{Codec}
use kes.Crypto.Ciphertext.{Readers, JsonCiphertext}
use kes.Crypto.Cipher.{Aead, Primitives}
use kes.Crypto.Cipher.RoundTrip.{IsAead}
use kes.Crypto.Encoding.RoundTrip.{Encodes}
use kes.Crypto.Keys.Messages.{IsKeyVersion}
use kes.KeyStore.Memory.{MemKeyStore}
use kes.KeyStore.Cache.{KeyCache, CacheConfig}

abbrev pub bytes16 : Text
bytes16 = 1 ∷ 2 ∷ 3 ∷ 4 ∷ 5 ∷ 6 ∷ 7 ∷ 8 ∷ 9 ∷ 10 ∷ 11 ∷ 12 ∷ 13 ∷ 14 ∷ 15 ∷ 16 ∷ []

abbrev pub nonce12 : Text
nonce12 = 1 ∷ 2 ∷ 3 ∷ 4 ∷ 5 ∷ 6 ∷ 7 ∷ 8 ∷ 9 ∷ 10 ∷ 11 ∷ 12 ∷ []

abbrev pub random28 : Text
random28 = bytes16 ++ nonce12

abbrev pub bytes32 : Text
bytes32 = bytes16 ++ bytes16

-- Seals by 16 bytes in front.
abbrev pub plain_aead : Aead
plain_aead = record {
  seal = λ nonce text associated. bytes16 ++ text;
  open_sealed = λ nonce text associated. some (drop 16 text);
}

pub plain_aead-IsAead : IsAead plain_aead
plain_aead-IsAead = record {
  open-seal = λ nonce text associated. refl;
  overhead = λ nonce text associated. omega arith;
}

abbrev pub primitives : Primitives
primitives = record {
  hmac_sha256 = λ key msg. bytes32;
  aes_gcm = λ key. ok plain_aead;
  hchacha20 = λ key nonce. ok bytes32;
  chacha20_poly1305 = λ key. ok plain_aead;
  fips = false;
}

abbrev pub json_text : JsonCiphertext
json_text = record {
  algorithm = codes "AES-256-GCM-HMAC-SHA-256";
  id = [];
  iv = bytes16;
  nonce = nonce12;
  bytes = bytes16 ++ codes "m";
}

abbrev pub readers : Readers
readers = record {
  read_array_header = λ b. ok (5, b);
  read_string = λ b. ok ([], b);
  read_exact = λ n b. ok (take n b, drop n b);
  read_bytes = λ b. ok (b, []);
  known_algorithm = λ a. true;
  json_unmarshal = λ b. ok json_text;
}

abbrev pub secret_key : SecretKey
secret_key = record { cipher = aes256; key = bytes32; initialized = true }

abbrev pub key_version : KeyVersion
key_version = record {
  key = secret_key;
  hmac_key = record { key = bytes32; hash = sha256; initialized = true };
  created_at = 7;
  created_by = codes "admin";
}

pub key_version-IsKeyVersion : IsKeyVersion key_version
key_version-IsKeyVersion = record {
  key = record { is_set = refl; known = refl; size = refl };
  hmac_key = record { is_set = refl; known = refl; size = refl };
}

abbrev pub key_message : PbKeyVersion
key_message = record {
  key = some (record { key = bytes32; type = aes256 });
  hmac_key = some (record { key = bytes32; hash = sha256 });
  created_at = 7;
  created_by = codes "admin";
}

abbrev pub no_key_message : PbKeyVersion
no_key_message = record { key = none; hmac_key = none; created_at = 0; created_by = [] }

-- Knows one message, for all texts that are not empty.
abbrev pub unmarshal_text : Text → Result PbKeyVersion
unmarshal_text [] = ok no_key_message
unmarshal_text (c ∷ b) = ok key_message

abbrev pub codec : Codec
codec = record {
  json_valid = λ b. false;
  json_unmarshal = λ b. ok (record { bytes = bytes32; type = []; created_at = 0; created_by = [] });
  base64_encode = λ b. b;
  base64_decode = λ b. ok b;
  proto_marshal = λ m. ok bytes16;
  proto_unmarshal = unmarshal_text;
}

pub codec-Encodes : Encodes codec key_message bytes16
codec-Encodes = record { marshals = refl; unmarshals = refl; base64 = refl; no_json = refl }

abbrev pub my_key : Text
my_key = codes "my-key"

-- A store that holds one key, and a cache over it.
abbrev pub one_key : MemKeyStore
one_key = record { ptr = some ((my_key, bytes16) ∷ []); capacity = pos 0 }

abbrev pub no_keys : MemKeyStore
no_keys = record { ptr = none; capacity = pos 0 }

abbrev pub mem_view : MemKeyStore → Text → Option Text
mem_view ks name = Cow.get name ks

abbrev pub cache_of : MemKeyStore → KeyCache MemKeyStore
cache_of ks = record {
  store = ks;
  cache = record { ptr = none; capacity = pos 0 };
  offline = false;
}

abbrev pub durations : CacheConfig
durations = record { expiry = pos 300; expiry_unused = pos 30; expiry_offline = pos 60 }

abbrev pub http_request : HttpRequest
http_request = record {
  method = codes "GET";
  path = codes "/v1/ready";
  content_length = pos 0;
  body = [];
  max_bytes = none;
  tls = some (record { is_ca = false; public_key_info = codes "alice" } ∷ []);
}

abbrev pub request : Text → Request
request resource = record { http = http_request; identity = codes "alice"; resource = resource }

abbrev pub identification : Identification
identification = record { fingerprint = λ b. b; verify = λ policy req. none }

abbrev pub policy : Policy
policy = record { allow = codes "/v1/*" ∷ []; deny = [] }
