-- ===== src/Crypto/Keys.antt =====
-- The keys of internal/crypto/key.go and their protobuf messages (internal/protobuf/crypto.proto).
-- A byte array is the list of its bytes, a time.Time an instant in nanoseconds.
pub mod Messages
use kes.Prelude.{
  ℕ, zero, String, Bool, true, false, not, ◌||◌, Option, none, some, [], ◌∷◌, arith, ◌==◌,
  if◌then◌else◌, length, Text, codes, text_beq, text_eq,
}
use kes.Api.Errors.{Result, ok, err, panic, ◌>>=◌, ◌>>◌, require, assert, plain, message, Message}

abbrev pub secret_key_size : ℕ
secret_key_size = 32

-- SecretKeyType is a uint; 0 is no type.
abbrev pub aes256 : ℕ
aes256 = 1

abbrev pub chacha20 : ℕ
chacha20 = 2

-- Hash is a uint.
abbrev pub sha256 : ℕ
sha256 = 1

-- fips.Enabled is fixed at build time; the other argument is cpu.HasAESGCM().
unfoldable pub determine_secret_key_type : Bool → Bool → ℕ
determine_secret_key_type fips has_aes_gcm = if fips || has_aes_gcm then aes256 else chacha20

unfoldable pub parse_secret_key_type : Text → Result ℕ
parse_secret_key_type s =
    if text_beq s (codes "AES256") || text_beq s (codes "AES256-GCM_SHA256")
    then ok aes256
    else if text_beq s (codes "ChaCha20") || text_beq s (codes "XCHACHA20-POLY1305")
    then ok chacha20
    else err
        (plain (record { format = "crypto: secret key type '%s' is not supported"; args = s ∷ [] }))

-- String; the digits of an invalid type are left out.
unfoldable pub secret_key_type_string : ℕ → Text
secret_key_type_string s =
    if s == aes256
    then codes "AES256"
    else if s == chacha20
    then codes "ChaCha20"
    else codes "!INVALID:"

pub record SecretKey : Type 0 where
  pub cipher : ℕ
  pub key : Text
  pub initialized : Bool

pub record HmacKey : Type 0 where
  pub key : Text
  pub hash : ℕ
  pub initialized : Bool

-- The zero HMACKey, of key versions that were stored without one.
abbrev pub zero_hmac_key : HmacKey
zero_hmac_key = record { key = []; hash = 0; initialized = false }

pub record KeyVersion : Type 0 where
  pub key : SecretKey
  pub hmac_key : HmacKey
  pub created_at : ℕ
  pub created_by : Text

abbrev pub has_hmac_key : KeyVersion → Bool
has_hmac_key s = s.hmac_key.initialized

unfoldable pub new_secret_key : ℕ → Text → Result SecretKey
new_secret_key cipher key =
    if not (length key == secret_key_size)
    then err (
        plain (record {
          format = "crypto: invalid key length '%d' for '%s'";
          args = (length key ∷ []) ∷ (cipher ∷ []) ∷ [];
        }))
    else ok (record { cipher = cipher; key = key; initialized = true })

-- The argument is what io.ReadFull reads from the random source: 32 bytes, or an error.
unfoldable pub generate_secret_key : ℕ → Result Text → Result SecretKey
unfolding new_secret_key
generate_secret_key cipher random = do bytes ← random; new_secret_key cipher bytes

unfoldable pub new_hmac_key : ℕ → Text → Result HmacKey
new_hmac_key hash key =
    if not (length key == 32)
    then err (
        plain (record {
          format = "crypto: invalid key length '%d' for '%s'";
          args = (length key ∷ []) ∷ (hash ∷ []) ∷ [];
        }))
    else ok (record { key = key; hash = hash; initialized = true })

unfoldable pub generate_hmac_key : ℕ → Result Text → Result HmacKey
unfolding new_hmac_key
generate_hmac_key hash random = do bytes ← random; new_hmac_key hash bytes

-- Sum, over the HMAC-SHA256 of the standard library.
unfoldable pub sum : (Text → Text → Text) → HmacKey → Text → Result Text
sum hmac_sha256 k msg = do
  assert k.initialized (message "crypto: usage of empty or uninitialized HMAC key detected")
  assert (k.hash == sha256) (message "crypto: unknown HMAC key hash")
  ok (hmac_sha256 k.key msg)

-- The protobuf messages. The nested ones are pointers, `none` where the message has no such field.
pub record PbSecretKey : Type 0 where
  pub key : Text
  pub type : ℕ

pub record PbHmacKey : Type 0 where
  pub key : Text
  pub hash : ℕ

pub record PbKeyVersion : Type 0 where
  pub key : Option PbSecretKey
  pub hmac_key : Option PbHmacKey
  pub created_at : ℕ
  pub created_by : Text

abbrev pub is_cipher : ℕ → Bool
is_cipher t = t == aes256 || t == chacha20

unfoldable pub secret_key_marshal : SecretKey → Result PbSecretKey
secret_key_marshal s = do
  require s.initialized (plain (message "crypto: secret key is not initialized"))
  require (is_cipher s.cipher) (plain (message "crypto: invalid secret key type"))
  ok (record { key = s.key; type = s.cipher })

-- The methods read fields of a pointer that may be nil.
abbrev pub nil_pointer : Message
nil_pointer = message "invalid memory address or nil pointer dereference"

unfoldable pub secret_key_unmarshal : Option PbSecretKey → Result SecretKey
secret_key_unmarshal none = panic nil_pointer
secret_key_unmarshal (some v) = do
  require (length v.key == secret_key_size) (plain (message "crypto: invalid secret key length"))
  require (is_cipher v.type) (plain (message "crypto: invalid secret key type"))
  ok (record { cipher = v.type; key = v.key; initialized = true })

unfoldable pub hmac_key_marshal : HmacKey → Result PbHmacKey
hmac_key_marshal k = do
  require k.initialized (plain (message "crypto: HMAC key is not initialized"))
  require (k.hash == sha256) (plain (message "crypto: invalid HMAC key hash"))
  ok (record { key = k.key; hash = k.hash })

unfoldable pub hmac_key_unmarshal : Option PbHmacKey → Result HmacKey
hmac_key_unmarshal none = panic nil_pointer
hmac_key_unmarshal (some v) = do
  require (length v.key == 32) (plain (message "crypto: invalid HMAC key length"))
  require (v.hash == sha256) (plain (message "crypto: invalid HMAC key hash"))
  ok (record { key = v.key; hash = v.hash; initialized = true })

unfoldable pub key_version_marshal : KeyVersion → Result PbKeyVersion
key_version_marshal s = do
  key ← secret_key_marshal s.key
  hmac ← hmac_key_marshal s.hmac_key
  ok (record {
    key = some key;
    hmac_key = some hmac;
    created_at = s.created_at;
    created_by = s.created_by;
  })

unfoldable pub key_version_unmarshal : PbKeyVersion → Result KeyVersion
key_version_unmarshal v = do
  key ← secret_key_unmarshal v.key
  hmac ← hmac_key_unmarshal v.hmac_key
  ok (record { key = key; hmac_key = hmac; created_at = v.created_at; created_by = v.created_by })
