-- ===== src/Crypto.antt =====
-- internal/crypto: secret keys, HMAC keys, key versions and their encodings, and ciphertexts.
pub mod Keys
pub mod Encoding
pub mod Ciphertext
pub mod Cipher
