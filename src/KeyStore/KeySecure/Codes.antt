-- ===== src/KeyStore/KeySecure/Codes.antt =====
-- The status codes that the calls of the Gemalto key store take for success and for a missing key.
use kes.Prelude.{◌≡◌, none, Text, arith, nat_eq, text_eq}
use kes.Api.Errors.{ok, err, sdk, key_exists}
use kes.KeyStore.KeySecure.{Exchange, Response, Library, create}

module _ (lib : Library) where
  -- Where the server answers, Create succeeds on 201 alone, and it returns ErrKeyExists on 409.
  pub create_codes :
      (x : Exchange) (name : Text) (resp : Response)
      → x.new_request ≡ none
      → x.reply ≡ ok resp
      → (create lib none x name ≡ ok tt → resp.status_code ≡ 201)
        × (resp.status_code ≡ 201 → create lib none x name ≡ ok tt)
        × (resp.status_code ≡ 409 → create lib none x name ≡ err (sdk key_exists))
  unfolding create
  create_codes x name resp q r = ground arith
