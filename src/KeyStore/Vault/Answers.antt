-- ===== src/KeyStore/Vault/Answers.antt =====
-- What the responses of a Vault server were, where they are taken.
use kes.Prelude.{
  ◌≡◌, Bool-cases, inl, inr, refl, sym, ◌∙◌, true, ◌||◌, Option, none, some, ◌==◌, Text, codes,
  has_prefix, text_eq, nat_eq, arith,
}
use kes.Api.Errors.{Error, Result, ok, err, panic, ◌>>=◌, >>=-eq-ok}
use kes.KeyStore.Vault.{RawResponse, Library, is_ok, transit_prefix, encrypt_failed}
use kes.KeyStore.Vault.Responses.{
  map_err, refused, data_entry, ciphertext_of, ciphertext_in, plaintext_in, accepted,
}
use kes.KeyStore.Json.{Value, null, text, number, boolean, object, array, other, Fields, find}

-- The entry of a response of the transit engine that is not refused.
data_entry-eq-ok :
    (key : Text) (f : Error → Error) (r : Result (Option Fields)) {v : Option Value}
    → data_entry key (map_err f r) ≡ ok v
    → (fields : Fields) × (r ≡ ok (some fields)) × (v ≡ find key fields)
data_entry-eq-ok key f (ok none) h = absurd (cc)
data_entry-eq-ok key f (ok (some fields)) h = (fields, refl, ground arith)
data_entry-eq-ok key f (err e) h = absurd (cc)
data_entry-eq-ok key f (panic why) h = absurd (cc)

ciphertext_of-eq-ok :
    (place : Text) (o : Option Value) {v : Text}
    → ciphertext_of place o ≡ ok v
    → (o ≡ some (text v)) × (has_prefix transit_prefix v ≡ true)
ciphertext_of-eq-ok place none h = absurd (cc)
ciphertext_of-eq-ok place (some (text w)) h = ground arith
ciphertext_of-eq-ok place (some null) h = absurd (cc)
ciphertext_of-eq-ok place (some (number n)) h = absurd (cc)
ciphertext_of-eq-ok place (some (boolean q)) h = absurd (cc)
ciphertext_of-eq-ok place (some (object f)) h = absurd (cc)
ciphertext_of-eq-ok place (some (array a)) h = absurd (cc)
ciphertext_of-eq-ok place (some other) h = absurd (cc)

refused-not_ok :
    (A : Type 0) (answered : Error) (unparsed : Error → Error) (r : Result (Option Fields)) (x : A)
    → ¬ (refused answered unparsed r ≡ ok x)
refused-not_ok A answered unparsed (err e) x h = absurd (cc)
refused-not_ok A answered unparsed (ok secret) x h = absurd (cc)
refused-not_ok A answered unparsed (panic why) x h = absurd (cc)

module _ (lib : Library) where
  pub ciphertext_in-eq-ok :
      (place : Text) (resp : RawResponse) {v : Text}
      → ciphertext_in lib place resp ≡ ok v
      → (fields : Fields) × (lib.parse_secret resp.body ≡ ok (some fields))
        × (find (codes "ciphertext") fields ≡ some (text v))
        × (has_prefix transit_prefix v ≡ true)
  unfolding ciphertext_in
  ciphertext_in-eq-ok place resp {v} h = elim (Bool-cases (is_ok resp.status_code)) [
    | inl q ↦
        let chain : (data_entry (codes "ciphertext")
                (map_err (encrypt_failed lib place) (lib.parse_secret resp.body))
              >>= ciphertext_of place)
            ≡ ok v =
          rw q at h in
        let (entry, found, value) =
          >>=-eq-ok
            (data_entry (codes "ciphertext")
              (map_err (encrypt_failed lib place) (lib.parse_secret resp.body)))
            (ciphertext_of place) chain in
        let (fields, parsed, same) =
          data_entry-eq-ok (codes "ciphertext") (encrypt_failed lib place)
            (lib.parse_secret resp.body) found in
        let (is_text, prefixed) = ciphertext_of-eq-ok place entry value in
        (fields, parsed, sym same ∙ is_text, prefixed)
    | inr q ↦ absurd (refused-not_ok Text _ _ (lib.parse_secret resp.body) v (rw q at h))
  ]

  pub plaintext_in-found :
      (place plaintext : Text) (resp : RawResponse) (fields : Fields)
      → resp.status_code ≡ 200
      → lib.parse_secret resp.body ≡ ok (some fields)
      → find (codes "plaintext") fields ≡ some (text plaintext)
      → plaintext_in lib place resp ≡ lib.base64_decode plaintext
  unfolding plaintext_in
  plaintext_in-found place plaintext resp fields code parsed found = rw (code, parsed, found) refl

  pub accepted-eq-ok :
      (place : Text) (resp : RawResponse)
      → accepted lib place resp ≡ ok tt
      → (resp.status_code == 204 || resp.status_code == 200) ≡ true
  unfolding accepted
  accepted-eq-ok place resp h =
      elim (Bool-cases (resp.status_code == 204 || is_ok resp.status_code)) [
        | inl q ↦ q
        | inr q ↦ absurd (refused-not_ok Unit _ _ (lib.parse_secret resp.body) tt (rw q at h))
      ]
