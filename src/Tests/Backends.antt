-- ===== src/Tests/Backends.antt =====
-- Key stores at servers that answer always the same.
use kes.Prelude.{
  ◌≡◌, is_some, refl, true, false, none, some, List, [], ◌∷◌, ◌++◌, map, Text, codes, text_eq,
  nat_eq, pos,
}
use kes.Api.Errors.{Error, ok, err, panic, plain, message}
use kes.KeyStore.KeySecure.{Response}
use kes.KeyStore.Fortanix
use kes.KeyStore.Fortanix.Calls
use kes.KeyStore.Fortanix.Endless.{list_endless}
use kes.KeyStore.KeyControl
use kes.KeyStore.KeyControl.Calls.{page_of}
use kes.KeyStore.KeyControl.Answers.{valid_names, page_of-empty_names}
use kes.KeyStore.KeyControl.Refresh.{Refresher, Round, refresh, refresh_lem}

abbrev text_error : Error
text_error = plain (message "error")

abbrev concat_texts : List Text → Text
concat_texts [] = []
concat_texts (t ∷ ts) = t ++ concat_texts ts

abbrev page : Response
page = record {
  status_code = 200;
  status = codes "200 OK";
  content_length = pos 1;
  content_type = codes "application/json";
  content = λ size. ok (codes "my-key");
}

abbrev sdkms : Fortanix.Library
sdkms = record {
  join = concat_texts;
  marshal = λ fields. ok [];
  base64_encode = λ b. b;
  base64_decode = λ b. ok b;
  error_text = λ e. [];
  decimal = λ n. n ∷ [];
  decode_message = λ body. body;
  decode_kid = λ body. body;
  decode_key = λ body. err text_error;
  decode_names = λ body. elim body [ ok t ↦ ok (t ∷ []) | err e ↦ err e | panic why ↦ panic why ];
}

abbrev sdkms_client : Fortanix.Client (Unit {0})
sdkms_client = record { new_request = λ method url. none; send = λ method url body s. (s, ok page) }

abbrev sdkms_config : Fortanix.Config
sdkms_config = record { endpoint = codes "https://127.0.0.1"; group_id = [] }

list_endless_example : Calls.list sdkms sdkms_client sdkms_config 9 (codes "my") (pos 10) tt ≡ none
list_endless_example =
    list_endless sdkms sdkms_client sdkms_config tt (codes "my") (codes "my-key") [] (pos 10) page
      refl refl refl 9

abbrev key_control : KeyControl.Library
key_control = record {
  marshal = λ fields. ok [];
  base64_encode = λ b. b;
  base64_decode = λ b. ok b;
  error_text = λ e. [];
  decode_error = λ body. body;
  decode_secret = λ body. body;
  decode_list = λ body. err text_error;
  decode_token = λ body. err text_error;
  unmarshal_continue = λ raw. ok raw;
}

-- A key, and one that has expired.
abbrev two_secrets : KeyControl.Listing
two_secrets = record {
  secrets =
      record { name = codes "a"; expired = true }
      ∷ record { name = codes "b"; expired = false }
      ∷ [];
  next_token = codes "next";
}

page_of-empty_names_example :
    page_of key_control two_secrets
    ≡ ok (
      map (λ (s : KeyControl.Secret). []) two_secrets.secrets ++ valid_names two_secrets.secrets,
      codes "next",
    )
page_of-empty_names_example = page_of-empty_names key_control two_secrets (codes "next") refl

abbrev armed : Refresher
armed = record { token = codes "old"; timer = some 5 }

abbrev outage : Round
outage = record { now = 5; renewed = err text_error; logged_in = err text_error }

abbrev recovery : Round
recovery = record {
  now = 10;
  renewed = ok (record { token = codes "new"; expires_at = none });
  logged_in = err text_error;
}

-- The renewal comes too late: the round before it got no token.
refresh_lem_example :
    ((refresh armed (outage ∷ recovery ∷ [])).token ≡ codes "old")
    × (is_some (refresh armed (outage ∷ recovery ∷ [])).timer ≡ false)
refresh_lem_example = refresh_lem (outage ∷ recovery ∷ []) (codes "old") 5
