-- ===== src/KeyStore/Fortanix/Codes.antt =====
-- How the Fortanix key store tells a key that exists, or does not, from other failures.
use kes.Prelude.{
  ◌≡◌, none, some, Text, text_beq_iff, Option-cases, [], text_eq, arith, Option, nat_eq,
}
use kes.Api.Errors.{sdk, key_exists}
use kes.KeyStore.KeySecure.{Response}
use kes.KeyStore.Fortanix.{Library}
use kes.KeyStore.Fortanix.Calls.{parse_error_response, exists_text, create_refused}

abbrev pub or_empty : Option Text → Text
or_empty none = []
or_empty (some t) = t

module _ (lib : Library) where
  -- A create that is answered with 409 and the message of Fortanix means ErrKeyExists, and so does no
  -- other answer.
  pub create_refused_iff :
      (name : Text) (resp : Response)
      → (create_refused lib name resp ≡ sdk key_exists
          → (resp.status_code ≡ 409) × (parse_error_response lib resp ≡ some (exists_text lib)))
        × (resp.status_code ≡ 409
            → parse_error_response lib resp ≡ some (exists_text lib)
            → create_refused lib name resp ≡ sdk key_exists)
  create_refused_iff name resp = ground (
    arith,
    Option-cases (parse_error_response lib resp),
    text_beq_iff (or_empty (parse_error_response lib resp)) (exists_text lib),
  )
