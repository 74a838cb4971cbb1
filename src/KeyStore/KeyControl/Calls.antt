-- ===== src/KeyStore/KeyControl/Calls.antt =====
-- internal/keystore/entrust/keycontrol.go: the methods of the key store.
use kes.Prelude.{
  ℕ, ◌*◌, String, ◌&&◌, Option, none, some, List, [], ◌∷◌, ◌==◌, ℤ, Text, codes, text_beq,
  has_prefix, if◌then◌else◌, text_eq, nat_eq,
}
use kes.Api.Errors.{Error, Result, ok, err, panic, unreachable, sdk, key_exists, key_not_found}
use kes.KeyStore.Interface.{KeyStoreState}
use kes.KeyStore.Json.{text, number, Fields, field, end}
use kes.KeyStore.KeySecure.{Response}
use kes.KeyStore.Remote.{Run, ◌>>=◌, lift, stop, on_error, failure}
use kes.KeyStore.KeyControl.{
  Config, Client, Listing, Library, mb, append_names, empty_names, page_size,
}

module _ (lib : Library) where
  abbrev pub failed : String → Error → Error
  failed format e = failure format (lib.error_text e ∷ [])

  abbrev pub mapped {ℓ} : {A : Type ℓ} → (Error → Error) → Result A → Result A
  mapped f (ok x) = ok x
  mapped f (err e) = err (f e)
  mapped f (panic why) = panic why

  -- The error that a JSON message means.
  abbrev pub meant {ℓ} : {A : Type ℓ} → ℕ → Result Text → Result A
  meant code (ok t) = err (
      if code == 409 && text_beq t (codes "Secret already exists")
      then sdk key_exists
      else if code == 404 && text_beq t (codes "Secret not found")
      then sdk key_not_found
      else failure "keycontrol: %s" (t ∷ []))
  meant code (err e) = err e
  meant code (panic why) = panic why

  abbrev pub told {ℓ} : {A : Type ℓ} → Response → Result Text → Result A
  told resp (ok t) = err (failure "keycontrol: %s: %s" (resp.status ∷ t ∷ []))
  told resp (err e) = err e
  told resp (panic why) = panic why

  unfoldable pub parse_error_response {ℓ} : {A : Type ℓ} → Response → Result A
  parse_error_response resp =
      if has_prefix (codes "application/json") resp.content_type
      then meant resp.status_code (lib.decode_error (resp.content mb))
      else told resp (resp.content mb)

  abbrev pub check_ok {ℓ} : {A : Type ℓ} → Response → Result A → Result A
  check_ok resp r = if resp.status_code == 200 then r else parse_error_response resp

  abbrev pub box_request : Config → Fields → Fields
  box_request config rest = field (codes "box_id") (text config.box_id) rest

  abbrev pub continued : Result Text → Result Text
  continued (ok raw) = lib.unmarshal_continue raw
  continued (err e) = err e
  continued (panic why) = panic why

  abbrev pub encoded : Result Text → Result Text
  encoded (ok raw) = ok (lib.base64_encode raw)
  encoded (err e) = err e
  encoded (panic why) = panic why

  -- The names and the next prefix of an answer of the server.
  abbrev pub next_prefix : Text → Result Text
  next_prefix token =
      if text_beq token []
      then ok []
      else mapped (failed "keycontrol: failed to list keys: invalid continue token: %v")
          (continued (lib.base64_decode token))

  abbrev pub listed_names : Listing → List Text
  listed_names l = append_names (empty_names l.secrets) l.secrets

  abbrev pub with_prefix : List Text → Result Text → Result (List Text × Text)
  with_prefix names (ok prefix) = ok (names, prefix)
  with_prefix names (err e) = err e
  with_prefix names (panic why) = panic why

  unfoldable pub page_of : Listing → Result (List Text × Text)
  page_of l = with_prefix (listed_names l) (next_prefix l.next_token)

  module _ {S : Type 0} (c : Client S) (config : Config) where
    -- The request of a method for a path, up to its response.
    abbrev pub made : Option Error → (Error → Error) → Run S Response → Run S Response
    made none f r = r
    made (some e) f r = stop (f e)

    abbrev pub post : String → (Error → Error) → Text → Fields → Run S Response
    post format unsent path request = do
      body ← lift (mapped (failed format) (lib.marshal request))
      url ← lift (mapped (failed format) (c.join_path (config.endpoint ∷ path ∷ [])))
      made (c.new_request url) (failed format) (on_error (c.send url body) unsent)

    unfoldable pub status : ℕ → Run S KeyStoreState
    status latency = do
      resp ←
          post "keycontrol: failed to fetch status: %v"
            (λ e. unreachable (failed "keycontrol: failed to fetch status: %v" e))
            (codes "/vault/1.0/GetBox/") (box_request config end)
      lift (check_ok resp (ok (record { latency = latency })))

    unfoldable pub create : Text → Text → Run S (Unit {0})
    create name key = do
      resp ←
          post "keycontrol: failed to create key: %v"
            (failed "keycontrol: failed to create key: %v") (codes "/vault/1.0/CreateSecret/")
            (box_request config (
              field (codes "name") (text name)
                (field (codes "secret_data") (text (lib.base64_encode key)) end)))
      lift (check_ok resp (ok tt))

    abbrev pub secret_request : Text → Fields
    secret_request name = box_request config (field (codes "secret_id") (text name) end)

    unfoldable pub get : Text → Run S Text
    get name = do
      resp ←
          post "keycontrol: failed to fetch key: %v" (failed "keycontrol: failed to fetch key: %v")
            (codes "/vault/1.0/CheckoutSecret/") (secret_request name)
      lift (
          check_ok resp (
            mapped (failed "keycontrol: failed to fetch key: %v")
              (lib.decode_secret (resp.content mb))))

    unfoldable pub delete : Text → Run S (Unit {0})
    delete name = do
      resp ←
          post "keycontrol: failed to delete key: %v"
            (failed "keycontrol: failed to delete key: %v") (codes "/vault/1.0/DeleteSecret/")
            (secret_request name)
      lift (check_ok resp (ok tt))

    -- The token that continues a listing at a prefix.
    abbrev pub start_token : Text → Result Text
    start_token prefix =
        if text_beq prefix []
        then ok []
        else encoded (
            mapped (failed "keycontrol: failed to list keys: %v")
              (lib.marshal (box_request config (field (codes "next_ctx") (text prefix) end))))

    abbrev pub token_field : Text → Fields
    token_field token =
        if text_beq token [] then end else field (codes "next_token") (text token) end

    unfoldable pub list : Text → ℤ → Run S (List Text × Text)
    list prefix n = do
      token ← lift (start_token prefix)
      resp ←
          post "keycontrol: failed to list keys: %v" (failed "keycontrol: failed to list keys: %v")
            (codes "/vault/1.0/ListSecretIds/")
            (box_request config
              (field (codes "max_items") (number (page_size n)) (token_field token)))
      answer ← lift (
          check_ok resp (
            mapped (failed "keycontrol: failed to list keys: %v")
              (lib.decode_list (resp.content (10 * mb)))))
      lift (page_of answer)
