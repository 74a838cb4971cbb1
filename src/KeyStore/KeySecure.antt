-- ===== src/KeyStore/KeySecure.antt =====
-- internal/keystore/gemalto/key-secure.go: the key store at a Gemalto KeySecure. The HTTP client, the
-- JSON decoder and the texts of errors are parameters; a request is modelled by what comes of it.
pub mod Codes
pub mod Listed
use kes.Prelude.{
  ℕ, zero, suc, ◌+◌, ◌%◌, ◌^◌, ◌*◌, String, Bool, not, ◌||◌, Option, none, some, List, [], ◌∷◌,
  ◌++◌, ltb, leb, ◌==◌, length, ℤ, pos, negsuc, Text, codes, has_prefix, text_eq, nat_eq, arith,
  if◌then◌else◌,
}
use kes.Api.Errors.{
  Error, Result, ok, err, panic, ◌>>=◌, ◌>>◌, require, plain, message, unreachable, sdk, key_exists,
  key_not_found, errors_is, is_canceled, is_deadline,
}
use kes.Conf.Texts.{trim_space}
use kes.KeyStore.Interface.{KeyStoreState}
use kes.KeyStore.Listing
use mathlib.Core.Option

-- http.Response; `content` is what reading the body gives up to a number of bytes.
pub record Response : Type 0 where
  pub status_code : ℕ
  pub status : Text
  pub content_length : ℤ
  pub content_type : Text
  pub content : ℕ → Result Text

-- One request: the error of http.NewRequestWithContext, and what client.Do returns.
pub record Exchange : Type 0 where
  pub new_request : Option Error
  pub reply : Result Response

pub record ErrResponse : Type 0 where
  pub code : ℕ
  pub message : Text

-- The Response of List.
pub record Page : Type 0 where
  pub skip : ℕ
  pub total : ℕ
  pub resources : List Text

-- The decoders read the body up to a number of bytes. That of a page decodes into the page before.
pub record Library : Type 0 where
  pub error_text : Error → Text
  pub decimal : ℕ → Text
  pub decode_error : Result Text → Result ErrResponse
  pub decode_secret : Result Text → Result Text
  pub decode_page : Page → Result Text → Result Page

abbrev pub mib : ℕ
mib = 2 ^ 20

abbrev pub error_size : ℤ → ℕ
error_size (pos n) = if ltb mib n then mib else n
error_size (negsuc n) = mib

abbrev pub is_context_error : Error → Bool
is_context_error e = errors_is is_canceled e || errors_is is_deadline e

-- strings.TrimSuffix(s, "\n")
abbrev pub trim_newline : Text → Text
trim_newline [] = []
trim_newline (c ∷ s) =
    let rest = trim_newline s in
    elim s [ [] ↦ if c == 0x0a then [] else c ∷ [] | d ∷ s' ↦ c ∷ rest ]

abbrev pub limit : ℕ
limit = 200

-- The variables of the loop of List.
pub record Progress : Type 0 where
  pub skipped : ℕ
  pub response : Page
  pub names : List Text

abbrev pub advance : Progress → Page → Progress
advance v page = record {
  skipped = (v.skipped + length page.resources) % 2 ^ 64;
  response = page;
  names = v.names ++ page.resources;
}

abbrev pub list_start : Progress
list_start = record {
  skipped = 0;
  response = record { skip = 0; total = 0; resources = [] };
  names = [];
}

module _ (lib : Library) where
  -- fmt.Errorf with the arguments and the text of an error.
  abbrev pub failure {ℓ} : {A : Type ℓ} → String → List Text → Error → Result A
  failure format args e =
      err (plain (record { format = format; args = args ++ (lib.error_text e ∷ []) }))

  unfoldable pub parse_server_error : Response → Result ErrResponse
  parse_server_error resp =
      if has_prefix (codes "application/json") (trim_space resp.content_type)
      then lib.decode_error (resp.content (error_size resp.content_length))
      else (do
        s ← resp.content (error_size resp.content_length)
        ok (record { code = resp.status_code; message = trim_newline (trim_space s) }))

  abbrev pub explained {ℓ} :
      {A : Type ℓ} → String → String → List Text → Response → Result ErrResponse → Result A
  explained unparsed format args resp (ok response) = err (
      plain (record {
        format = format;
        args = args ++ (response.message ∷ lib.decimal response.code ∷ []);
      }))
  explained unparsed format args resp (err e) = failure unparsed (resp.status ∷ []) e
  explained unparsed format args resp (panic why) = panic why

  -- The error of a response with another status code.
  abbrev pub refused {ℓ} : {A : Type ℓ} → String → String → List Text → Response → Result A
  refused unparsed format args resp = explained unparsed format args resp (parse_server_error resp)

  abbrev pub requested : String → List Text → Option Error → Result (Unit {0})
  requested format args none = ok tt
  requested format args (some e) = failure format args e

  -- An error of the context is returned as it is.
  abbrev pub answered {ℓ} : {A : Type ℓ} → String → List Text → Result A → Result A
  answered format args (ok x) = ok x
  answered format args (err e) = if is_context_error e then err e else failure format args e
  answered format args (panic why) = panic why

  abbrev pub reached : ℕ → Result Response → Result KeyStoreState
  reached latency (ok resp) = ok (record { latency = latency })
  reached latency (err e) = err (unreachable e)
  reached latency (panic why) = panic why

  abbrev pub fail_with : Option Error → Result (Unit {0})
  fail_with none = ok tt
  fail_with (some e) = err e

  -- Status
  unfoldable pub status : Exchange → ℕ → Result KeyStoreState
  status x latency = do fail_with x.new_request; reached latency x.reply

  -- Create; `marshal` is the error of json.Marshal.
  unfoldable pub create : Option Error → Exchange → Text → Result (Unit {0})
  create marshal x name = do
    requested "gemalto: failed to create key '%s': %v" (name ∷ []) marshal
    requested "gemalto: failed to create key '%s': %v" (name ∷ []) x.new_request
    resp ← answered "gemalto: failed to create key '%s': %v" (name ∷ []) x.reply
    require (not (resp.status_code == 409)) (sdk key_exists)
    (if resp.status_code == 201
        then ok tt
        else refused "gemalto: '%s': failed to parse server response: %v"
            "gemalto: failed to create key '%s': %q (%d)" (name ∷ []) resp)

  unfoldable pub get : Exchange → Text → Result Text
  get x name = do
    requested "gemalto: failed to access key '%s': %v" (name ∷ []) x.new_request
    resp ← answered "gemalto: failed to access key '%s': %v" (name ∷ []) x.reply
    require (not (resp.status_code == 404)) (sdk key_not_found)
    (if resp.status_code == 200
        then answered "gemalto: failed to parse server response: %v" []
            (lib.decode_secret (resp.content (2 * mib)))
        else refused "gemalto: '%s': failed to parse server response: %v"
            "gemalto: failed to access key %q: %q (%d)" (name ∷ []) resp)

  unfoldable pub delete : Exchange → Text → Result (Unit {0})
  delete x name = do
    requested "gemalto: failed to delete key  '%s': %v" (name ∷ []) x.new_request
    resp ← answered "gemalto: failed to delete key '%s': %v" (name ∷ []) x.reply
    (if resp.status_code == 204 || resp.status_code == 404
        then ok tt
        else refused "gemalto: %s: failed to parse server response: %v"
            "gemalto: failed to delete key %q: %s (%d)" (name ∷ []) resp)

  abbrev pub out_of_sync : ℕ → ℕ → Error
  out_of_sync skip skipped = plain (record {
    format =
        "gemalto: failed to list keys: pagination is out-of-sync: tried to skip %d but skipped %d";
    args = lib.decimal skip ∷ lib.decimal skipped ∷ [];
  })

  -- One request of List; the error of client.Do is returned as it is.
  unfoldable pub read_page : Exchange → ℕ → Page → Result Page
  read_page x skip response = do
    requested "gemalto: failed to list keys: %v" [] x.new_request
    resp ← x.reply
    page ←
        (if resp.status_code == 200
          then answered "gemalto: failed to list keys: listing page too large: %v" []
              (lib.decode_page response (resp.content (32 * mib)))
          else refused "gemalto: %s: failed to parse server response: %v"
              "gemalto: failed to list keys: '%s' (%d)" [] resp)
    require (page.skip == skip) (out_of_sync skip page.skip)
    ok page

  -- The loop, on fuel: `none` is an unfinished loop. `serve` answers the request with a limit and a
  -- number of items to skip.
  unfoldable pub list_pages : (ℕ → ℕ → Exchange) → ℕ → Progress → Option (Result (List Text))
  list_pages serve zero v = none
  list_pages serve (suc fuel) v = elim (read_page (serve limit v.skipped) v.skipped v.response) [
    | panic why ↦ some (panic why)
    | err e ↦ some (err e)
    | ok page ↦
        let rest = list_pages serve fuel (advance v page) in
        if leb page.total page.skip then some (ok (advance v page).names) else rest
  ]

  abbrev pub listed : Text → ℤ → Result (List Text) → Result (List Text × Text)
  listed prefix n r = r >>= λ names. ok (Listing.list names prefix n)

  unfoldable pub list : (ℕ → ℕ → Exchange) → ℕ → Text → ℤ → Option (Result (List Text × Text))
  list serve fuel prefix n = Option.map (listed prefix n) (list_pages serve fuel list_start)
