-- ===== src/Crypto/Cipher/RoundTrip.antt =====
-- Encrypt and Decrypt of internal/crypto/key.go together, and ciphertexts of other formats.
use kes.Prelude.{
  ◌+◌, ◌-◌, ◌≤◌, ◌<◌, ◌≡◌, refl, ap, Bool, true, false, not, ◌&&◌, ◌||◌, some, List, [], ◌∷◌, ◌++◌,
  arith, leb, ◌==◌, length, length-append, take, drop, Text, text_eq,
}
use kes.Api.Errors.{ok, err, ◌>>=◌, >>=-eq-ok, sdk, decrypt_failed}
use kes.Crypto.Keys.{SecretKey, aes256}
use kes.Crypto.Ciphertext.{Readers, Ciphertext, parse_ciphertext, unmarshal_json}
use kes.Crypto.Ciphertext.Layout.{unmarshal_json-sizes}
use kes.Crypto.Cipher.{
  Aead, Primitives, rand_size, sealed_part, random_part, check_key, new_aead, encrypt,
  decrypt_parsed, decrypt, opened,
}

take-append {ℓ} : {A : Type ℓ} (xs ys : List A) → take (length xs) (xs ++ ys) ≡ xs
take-append [] ys = refl
take-append (x ∷ xs) ys = ap (◌∷◌ x) (take-append xs ys)

drop-append {ℓ} : {A : Type ℓ} (xs ys : List A) → drop (length xs) (xs ++ ys) ≡ ys
drop-append [] ys = refl
drop-append (x ∷ xs) ys = drop-append xs ys

-- Splitting off the last 28 bytes undoes appending them.
split_random :
    (sealed bytes : Text)
    → length bytes ≡ rand_size
    → (sealed_part (sealed ++ bytes) ≡ sealed) × (random_part (sealed ++ bytes) ≡ bytes)
split_random sealed bytes h =
    let e : length (sealed ++ bytes) - rand_size ≡ length sealed =
      omega (arith, length-append sealed bytes) in
    (rw e (take-append sealed bytes), rw e (drop-append sealed bytes))

-- What is documented of a cipher.AEAD: Open undoes Seal, and a sealed text is 16 bytes longer.
pub record IsAead (a : Aead) : Type 0 where
  pub open-seal :
      (nonce text data' : Text) → a.open_sealed nonce (a.seal nonce text data') data' ≡ some text
  pub overhead : (nonce text data' : Text) → length (a.seal nonce text data') ≡ length text + 16

-- The first byte of a ciphertext of the previous formats.
abbrev pub looks_legacy : Text → Bool
looks_legacy [] = false
looks_legacy (first ∷ b) = first == 0x95 || first == 0x7b

module _ (p : Primitives) (r : Readers) where
  parse-new : (b : Text) → looks_legacy b ≡ false → parse_ciphertext r b ≡ b
  unfolding parse_ciphertext
  parse-new [] h = refl
  parse-new (first ∷ b) h = ground arith

  open_sealed_text :
      (s : SecretKey) (bytes plaintext associated_data : Text) (aead : Aead)
      → length bytes ≡ rand_size
      → new_aead p s (take 16 bytes) ≡ ok aead
      → IsAead aead
      → decrypt_parsed p s
          (aead.seal (drop 16 bytes) plaintext associated_data ++ bytes)
          associated_data
        ≡ ok plaintext
  unfolding decrypt_parsed
  open_sealed_text s bytes plaintext associated_data aead n a law =
      let sealed : Text = aead.seal (drop 16 bytes) plaintext associated_data in
      let parts = split_random sealed bytes n in
      let long : leb (length (sealed ++ bytes)) rand_size ≡ false = ground (
        arith,
        n,
        length-append sealed bytes,
        law.overhead (drop 16 bytes) plaintext associated_data,
      ) in
      rw (long, parts.0, parts.1, a, law.open-seal (drop 16 bytes) plaintext associated_data)

  -- If Encrypt, with 28 random bytes and a cipher that is an AEAD, returns a ciphertext whose first
  -- byte is not that of a previous format, Decrypt returns the plaintext under the same key and
  -- associated data.
  pub decrypt-encrypt :
      (s : SecretKey) (bytes plaintext associated_data ciphertext : Text) (aead : Aead)
      → length bytes ≡ rand_size
      → new_aead p s (take 16 bytes) ≡ ok aead
      → IsAead aead
      → encrypt p s (ok bytes) plaintext associated_data ≡ ok ciphertext
      → looks_legacy ciphertext ≡ false
      → decrypt p r s ciphertext associated_data ≡ ok plaintext
  unfolding encrypt decrypt decrypt_parsed
  decrypt-encrypt s bytes plaintext associated_data ciphertext aead n a law e l =
      let (u, checked, rest) = >>=-eq-ok (check_key p s) _ e in
      let whole : aead.seal (drop 16 bytes) plaintext associated_data ++ bytes ≡ ciphertext =
        cc (a, rest) in
      rw (checked, parse-new ciphertext l, ← whole)
        (open_sealed_text s bytes plaintext associated_data aead n a law)

  check_key-passes :
      (s : SecretKey)
      → s.initialized ≡ true
      → (p.fips && not (s.cipher == aes256)) ≡ false
      → check_key p s ≡ ok tt
  unfolding check_key
  check_key-passes s i f = ground arith

  -- An initialised key of a cipher that is allowed in FIPS mode encrypts: with 28 random bytes and
  -- a cipher that is set up without an error and is an AEAD, Encrypt returns a ciphertext, 44 bytes
  -- longer than the plaintext.
  pub encrypt-total :
      (s : SecretKey) (bytes plaintext associated_data : Text) (aead : Aead)
      → s.initialized ≡ true
      → (p.fips && not (s.cipher == aes256)) ≡ false
      → length bytes ≡ rand_size
      → new_aead p s (take 16 bytes) ≡ ok aead
      → IsAead aead
      → (ciphertext : Text) × (encrypt p s (ok bytes) plaintext associated_data ≡ ok ciphertext)
        × (length ciphertext ≡ length plaintext + 44)
  unfolding encrypt
  encrypt-total s bytes plaintext associated_data aead i f n a law = (
    aead.seal (drop 16 bytes) plaintext associated_data ++ bytes,
    rw (check_key-passes s i f, a),
    omega (
      arith,
      length-append (aead.seal (drop 16 bytes) plaintext associated_data) bytes,
      law.overhead (drop 16 bytes) plaintext associated_data,
    ),
  )

  -- A ciphertext of no previous format that has at most 28 bytes is refused with ErrDecrypt.
  pub decrypt-short :
      (s : SecretKey) (ciphertext associated_data : Text)
      → check_key p s ≡ ok tt
      → looks_legacy ciphertext ≡ false
      → length ciphertext ≤ 28
      → decrypt p r s ciphertext associated_data ≡ err (sdk decrypt_failed)
  unfolding decrypt decrypt_parsed
  decrypt-short s ciphertext associated_data c l h =
      let short : leb (length ciphertext) rand_size ≡ true = ground arith in
      rw (c, parse-new ciphertext l, short)

  -- With an initialised key whose cipher is allowed, a ciphertext of the previous JSON format that
  -- is read without an error and has any bytes is decrypted with the iv, the nonce and the bytes
  -- that it names.
  pub decrypt-json :
      (s : SecretKey) (b associated_data : Text) (c : Ciphertext)
      → check_key p s ≡ ok tt
      → unmarshal_json r (0x7b ∷ b) ≡ ok c
      → 0 < length c.bytes
      → decrypt p r s (0x7b ∷ b) associated_data ≡ (
          new_aead p s c.iv >>= λ aead. opened p (aead.open_sealed c.nonce c.bytes associated_data))
  unfolding decrypt decrypt_parsed parse_ciphertext
  decrypt-json s b associated_data c k u h =
      let sizes = unmarshal_json-sizes r (0x7b ∷ b) c u in
      let tail : length (c.iv ++ c.nonce) ≡ rand_size = omega (arith, length-append c.iv c.nonce) in
      let parts = split_random c.bytes (c.iv ++ c.nonce) tail in
      let iv : take 16 (c.iv ++ c.nonce) ≡ c.iv = rw (← sizes.0) (take-append c.iv c.nonce) in
      let nonce : drop 16 (c.iv ++ c.nonce) ≡ c.nonce = rw (← sizes.0) (drop-append c.iv c.nonce) in
      let long : leb (length (c.bytes ++ (c.iv ++ c.nonce))) rand_size ≡ false =
        ground (arith, length-append c.bytes (c.iv ++ c.nonce)) in
      rw (k, u, long, parts.0, parts.1, iv, nonce)
