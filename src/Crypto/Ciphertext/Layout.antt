-- ===== src/Crypto/Ciphertext/Layout.antt =====
-- The sizes that the parser of JSON ciphertexts checks.
use kes.Prelude.{
  ◌≡◌, refl, Bool, true, false, ◌||◌, arith, ◌==◌, length, Text, codes, text_beq, text_eq,
}
use kes.Api.Errors.{ok, >>=-eq-ok}
use kes.Crypto.Ciphertext.{
  Ciphertext, Readers, unmarshal_json, or_decrypt, must, iv_size, nonce_size,
}

must-passes : (b : Bool) (u : Unit) → must b ≡ ok u → b ≡ true
must-passes true u h = refl
must-passes false u h = cc

module _ (r : Readers) where
  pub unmarshal_json-sizes :
      (b : Text) (c : Ciphertext)
      → unmarshal_json r b ≡ ok c
      → (length c.iv ≡ iv_size) × (length c.nonce ≡ nonce_size)
  unfolding unmarshal_json
  unmarshal_json-sizes b c h =
      let (value, e0, h0) = >>=-eq-ok (or_decrypt (r.json_unmarshal b)) _ h in
      let (u1, e1, h1) =
        >>=-eq-ok
          (must (
            text_beq value.algorithm (codes "AES-256-GCM-HMAC-SHA-256")
            || text_beq value.algorithm (codes "ChaCha20Poly1305")))
          _ h0 in
      let (u2, e2, h2) = >>=-eq-ok (must (length value.iv == iv_size)) _ h1 in
      let (u3, e3, h3) = >>=-eq-ok (must (length value.nonce == nonce_size)) _ h2 in
      (
        ground (arith, must-passes (length value.iv == iv_size) u2 e2),
        ground (arith, must-passes (length value.nonce == nonce_size) u3 e3),
      )
