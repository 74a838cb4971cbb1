-- ===== src/Crypto/Ciphertext.antt =====
-- internal/crypto/ciphertext.go: ciphertexts of previous releases in MessagePack and JSON.
pub mod Layout
use kes.Prelude.{
  ℕ, Bool, true, ◌||◌, [], ◌∷◌, ◌++◌, arith, ◌==◌, if◌then◌else◌, length, Text, codes, text_beq,
  text_eq,
}
use kes.Api.Errors.{Result, ok, err, panic, ◌>>=◌, ◌>>◌, require, sdk, decrypt_failed}

abbrev pub iv_size : ℕ
iv_size = 16

abbrev pub nonce_size : ℕ
nonce_size = 12

-- The fields of a ciphertext that parseCiphertext uses; the algorithm and the ID are only checked.
pub record Ciphertext : Type 0 where
  pub iv : Text
  pub nonce : Text
  pub bytes : Text

pub record JsonCiphertext : Type 0 where
  pub algorithm : Text
  pub id : Text
  pub iv : Text
  pub nonce : Text
  pub bytes : Text

-- The readers of github.com/tinylib/msgp, which return what they read and the rest, the kms-go
-- parser of algorithm names (true if the name is known), and json.Unmarshal.
pub record Readers : Type 0 where
  pub read_array_header : Text → Result (ℕ × Text)
  pub read_string : Text → Result (Text × Text)
  -- into an array of the given size
  pub read_exact : ℕ → Text → Result (Text × Text)
  pub read_bytes : Text → Result (Text × Text)
  pub known_algorithm : Text → Bool
  pub json_unmarshal : Text → Result JsonCiphertext

-- `if err != nil { return kes.ErrDecrypt }`
abbrev pub or_decrypt {ℓ} : {A : Type ℓ} → Result A → Result A
or_decrypt (ok a) = ok a
or_decrypt (err e) = err (sdk decrypt_failed)
or_decrypt (panic m) = panic m

abbrev pub must : Bool → Result (Unit {0})
must b = require b (sdk decrypt_failed)

module _ (r : Readers) where
  unfoldable pub unmarshal_binary : Text → Result Ciphertext
  unmarshal_binary b0 = do
    header ← or_decrypt (r.read_array_header b0)
    must (header.0 == 5)
    algorithm ← or_decrypt (r.read_string header.1)
    id ← or_decrypt (r.read_string algorithm.1)
    iv ← or_decrypt (r.read_exact iv_size id.1)
    nonce ← or_decrypt (r.read_exact nonce_size iv.1)
    bytes ← or_decrypt (r.read_bytes nonce.1)
    must (length bytes.1 == 0)
    must (r.known_algorithm algorithm.0)
    ok (record { iv = iv.0; nonce = nonce.0; bytes = bytes.0 })

  unfoldable pub unmarshal_json : Text → Result Ciphertext
  unmarshal_json text = do
    value ← or_decrypt (r.json_unmarshal text)
    must (
        text_beq value.algorithm (codes "AES-256-GCM-HMAC-SHA-256")
        || text_beq value.algorithm (codes "ChaCha20Poly1305"))
    must (length value.iv == iv_size)
    must (length value.nonce == nonce_size)
    ok (record { iv = value.iv; nonce = value.nonce; bytes = value.bytes })

  -- b = append(append(append(b[:0], c.Bytes...), c.IV...), c.Nonce...), or `b` if the parser failed
  abbrev pub relayout : Text → Result Ciphertext → Text
  relayout b (ok c) = c.bytes ++ (c.iv ++ c.nonce)
  relayout b (err e) = b
  relayout b (panic m) = b

  unfoldable pub parse_ciphertext : Text → Text
  parse_ciphertext [] = []
  parse_ciphertext (first ∷ b) =
      if first == 0x95
      then relayout (first ∷ b) (unmarshal_binary (first ∷ b))
      else if first == 0x7b
      then relayout (first ∷ b) (unmarshal_json (first ∷ b))
      else first ∷ b
