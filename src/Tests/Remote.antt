-- ===== src/Tests/Remote.antt =====
-- A Gemalto KeySecure with two keys. The body of a page is the number of items to skip.
use kes.Prelude.{ℕ, ◌≡◌, refl, none, some, List, [], ◌∷◌, Text, codes, pos, arith, text_eq}
use kes.Api.Errors.{Result, ok, err, panic, plain, message}
use kes.KeyStore.Listing
use kes.KeyStore.KeySecure.{Response, Exchange, Page, Library, list}
use kes.KeyStore.KeySecure.Listed.{Serves, page_of, list_served}

abbrev keys : List Text
keys = codes "beta" ∷ codes "alpha" ∷ []

abbrev decode : Page → Result Text → Result Page
decode before (ok (skip ∷ s)) = ok (page_of keys skip)
decode before (ok []) = ok before
decode before (err e) = err e
decode before (panic why) = panic why

abbrev library : Library
library = record {
  error_text = λ e. codes "error";
  decimal = λ n. n ∷ [];
  decode_error = λ body. err (plain (message "not JSON"));
  decode_secret = λ body. body;
  decode_page = decode;
}

abbrev page_response : ℕ → Response
page_response skip = record {
  status_code = 200;
  status = codes "200 OK";
  content_length = pos 1;
  content_type = codes "application/json";
  content = λ size. ok (skip ∷ []);
}

abbrev serve : ℕ → ℕ → Exchange
serve limit skip = record { new_request = none; reply = ok (page_response skip) }

serves : Serves library serve keys
serves = record {
  response = page_response;
  answers = λ skip. refl;
  succeeds = λ skip. refl;
  decodes = λ before skip h. refl;
}

list_served_example :
    list library serve 3 (codes "a") (pos 1) ≡ some (ok (Listing.list keys (codes "a") (pos 1)))
list_served_example =
    list_served library serve keys serves 3 (codes "a") (pos 1) (omega arith) (omega arith)
