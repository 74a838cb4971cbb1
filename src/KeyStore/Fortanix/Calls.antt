-- ===== src/KeyStore/Fortanix/Calls.antt =====
-- internal/keystore/fortanix/keystore.go: the methods of the key store.
use kes.Prelude.{
  ℕ, zero, suc, ◌*◌, String, true, ◌&&◌, Option, none, some, List, [], ◌∷◌, ◌++◌, ltb, ◌==◌, ℤ,
  Text, codes, text_beq, has_prefix, if◌then◌else◌, text_eq, nat_eq,
}
use mathlib.Core.Option
use kes.Api.Errors.{Error, Result, ok, err, panic, unreachable, sdk, key_exists, key_not_found}
use kes.Conf.Texts.{trim_space}
use kes.KeyStore.Interface.{KeyStoreState}
use kes.KeyStore.Json.{text, array, boolean, item, nothing, Fields, field, end}
use kes.KeyStore.KeySecure.{Response, error_size}
use kes.KeyStore.Listing
use kes.KeyStore.Remote.{
  Run, and_then, ◌>>=◌, ◌>>◌, lift, give, stop, on_error, fail_first, failure, is_context_error,
}
use kes.KeyStore.Fortanix.{Config, Client, ExportedKey, Library, mb, trim_slash, separator}

abbrev pub unless_unmade {ℓ} :
    {S : Type 0} {A : Type ℓ} → (Error → Error) → Option Error → Run S A → Run S A
unless_unmade unmade none c = c
unless_unmade unmade (some e) c = stop (unmade e)

module _ (lib : Library) where
  unfoldable pub endpoint : Text → List Text → Text
  endpoint base elems = trim_slash (trim_space base) ++ (separator elems ++ lib.join elems)

  -- The text of an error, or what was read, which does not panic.
  abbrev pub text_of : Result Text → Text
  text_of (ok s) = s
  text_of (err e) = lib.error_text e
  text_of (panic why) = []

  -- parseErrorResponse, as far as the text of its error goes: that of kesdk.NewError is the message.
  unfoldable pub parse_error_response : Response → Option Text
  parse_error_response resp =
      if ltb resp.status_code 400
      then none
      else if has_prefix (codes "application/json") (trim_space resp.content_type)
      then some (text_of (lib.decode_message (resp.content (error_size resp.content_length))))
      else some (text_of (resp.content (error_size resp.content_length)))

  abbrev pub with_error : String → Text → Error → Error
  with_error format name e = failure format (name ∷ lib.error_text e ∷ [])

  -- An error of the context is returned as it is.
  abbrev pub unless_context : (Error → Error) → Error → Error
  unless_context f e = if is_context_error e then e else f e

  abbrev pub no_message : String → Text → Response → Error
  no_message format name resp =
      failure format (name ∷ resp.status ∷ lib.decimal resp.status_code ∷ [])

  -- The switch on the error of parseErrorResponse: `code` with the text `known` is the error `means`.
  abbrev pub explained : String → String → ℕ → Text → Error → Text → Response → Option Text → Error
  explained bare format code known means name resp none = no_message bare name resp
  explained bare format code known means name resp (some t) =
      if resp.status_code == code && text_beq t known then means else failure format (name ∷ t ∷ [])

  unfoldable pub check_code : ℕ → Error → Response → Result (Unit {0})
  check_code code e resp = if resp.status_code == code then ok tt else err e

  abbrev pub exists_text : Text
  exists_text = codes "sobject already exists"

  abbrev pub missing_text : Text
  missing_text = codes "sobject does not exist"

  abbrev pub create_refused : Text → Response → Error
  create_refused name resp =
      explained "fortanix: failed to create key '%s': %s (%q)"
        "fortanix: failed to create key '%s': %v" 409 exists_text (sdk key_exists) name resp
        (parse_error_response resp)

  abbrev pub metadata_refused : Text → Response → Error
  metadata_refused name resp =
      explained "fortanix: failed to delete '%s': failed fetch key metadata: %s (%d)"
        "fortanix: failed to delete '%s': failed to fetch key metadata: %v" 404 missing_text
        (sdk key_not_found) name resp (parse_error_response resp)

  abbrev pub get_refused : Text → Response → Error
  get_refused name resp =
      explained "fortanix: failed to fetch '%s': %s (%d)" "fortanix: failed to fetch '%s': %v" 404
        missing_text (sdk key_not_found) name resp (parse_error_response resp)

  abbrev pub delete_refused : Text → Response → Option Text → Error
  delete_refused name resp none = no_message "fortanix: failed to delete '%s': %s (%d)" name resp
  delete_refused name resp (some t) = failure "fortanix: failed to delete '%s': %v" (name ∷ t ∷ [])

  abbrev pub mapped {ℓ} : {A : Type ℓ} → (Error → Error) → Result A → Result A
  mapped f (ok x) = ok x
  mapped f (err e) = err (f e)
  mapped f (panic why) = panic why

  abbrev pub group_field : Text → Fields → Fields
  group_field group rest =
      if text_beq group [] then rest else field (codes "group_id") (text group) rest

  -- The Request of Create; an empty group is left out.
  abbrev pub create_request : Config → Text → Text → Fields
  create_request c name value = field (codes "obj_type") (text (codes "OPAQUE")) (
      field (codes "name") (text name) (
        group_field c.group_id (
          field (codes "key_ops")
            (array (item (text (codes "EXPORT")) (item (text (codes "APPMANAGEABLE")) nothing)))
            (field (codes "value") (text (lib.base64_encode value))
              (field (codes "enabled") (boolean true) end)))))

  abbrev pub name_request : Text → Fields
  name_request name = field (codes "name") (text name) end

  -- The value of an exported key.
  abbrev pub key_value : Text → ExportedKey → Result Text
  key_value name k =
      if k.enabled
      then mapped (with_error "fortanix: failed to fetch '%s': %v" name) (lib.base64_decode k.value)
      else err (
          failure
            "fortanix: failed to fetch '%s': key has been disabled and cannot be used until enabled again"
            (name ∷ []))

  module _ {S : Type 0} (c : Client S) (config : Config) where
    -- http.NewRequest and Do.
    abbrev pub call : (Error → Error) → (Error → Error) → Text → Text → Text → Run S Response
    call unmade failed method url body =
        unless_unmade unmade (c.new_request method url)
          (on_error (c.send method url body) (unless_context failed))

    abbrev pub keys_url : Text
    keys_url = endpoint config.endpoint (codes "/crypto/v1/keys" ∷ [])

    abbrev pub export_url : Text
    export_url = endpoint config.endpoint (codes "/crypto/v1/keys/export" ∷ [])

    abbrev pub reached : ℕ → S × Result Response → S × Result KeyStoreState
    reached latency (s, ok resp) = (s, ok (record { latency = latency }))
    reached latency (s, err e) = (s, err (unreachable e))
    reached latency (s, panic why) = (s, panic why)

    unfoldable pub status : ℕ → Run S KeyStoreState
    status latency = do
      fail_first (c.new_request (codes "GET") config.endpoint)
      λ s. reached latency (c.send (codes "GET") config.endpoint [] s)

    unfoldable pub create : Text → Text → Run S (Unit {0})
    create name value = do
      body ← lift (lib.marshal (create_request config name value))
      resp ←
          call (with_error "fortanix: failed to create key '%s': %v" name)
            (with_error "fortanix: failed to create key '%s': %v" name) (codes "PUT") keys_url body
      lift (check_code 201 (create_refused name resp) resp)

    unfoldable pub delete : Text → Run S (Unit {0})
    delete name = do
      body ← lift (
          mapped (with_error "fortanix: failed to delete '%s': %v" name)
            (lib.marshal (name_request name)))
      resp ←
          call (with_error "fortanix: failed to delete '%s': %v" name)
            (with_error "fortanix: failed to delete '%s': %v" name) (codes "POST") export_url body
      lift (check_code 200 (metadata_refused name resp) resp)
      kid ← lift (
          mapped
            (with_error "fortanix: failed to delete '%s': failed to parse key metadata: %v" name)
            (lib.decode_kid (resp.content mb)))
      answer ←
          call (λ e. e) (with_error "fortanix: failed to delete '%s': %v" name) (codes "DELETE")
            (endpoint config.endpoint (codes "/crypto/v1/keys" ∷ kid ∷ [])) []
      lift (check_code 204 (delete_refused name answer (parse_error_response answer)) answer)

    unfoldable pub get : Text → Run S Text
    get name = do
      body ← lift (
          mapped (with_error "fortanix: failed to fetch %q: %v" name)
            (lib.marshal (name_request name)))
      resp ←
          call (with_error "fortanix: failed to fetch '%s': %v" name)
            (with_error "fortanix: failed to fetch '%s': %v" name) (codes "POST") export_url body
      lift (check_code 200 (get_refused name resp) resp)
      key ← lift (
          mapped
            (with_error "fortanix: failed to fetch '%s': failed to parse server response %v" name)
            (lib.decode_key (resp.content mb)))
      lift (key_value name key)

    abbrev pub start_query : Text → Text
    start_query start = if text_beq start [] then [] else codes "&start=" ++ start

    abbrev pub list_url : Text → Text
    list_url start = keys_url ++ (codes "?sort=name:asc&limit=100" ++ start_query start)

    abbrev pub list_failed : Error → Error
    list_failed e = failure "fortanix: failed to list keys: %v" (lib.error_text e ∷ [])

    -- One request of List.
    unfoldable pub read_page : Text → Run S (List Text)
    read_page start = do
      resp ← call list_failed list_failed (codes "GET") (list_url start) []
      lift (
          mapped
            (λ e.
              failure "fortanix: failed to list keys: failed to parse server response: %v"
                (lib.error_text e ∷ []))
            (lib.decode_names (resp.content (10 * mb))))

    -- The loop of List, on fuel; `none` is an unfinished loop.
    unfoldable pub list_loop : ℕ → Text → List Text → S → Option (S × Result (List Text))
    list_loop zero start names s = none
    list_loop (suc fuel) start names s =
        let r = read_page start s in
        elim r.1 [
          | panic why ↦ some (r.0, panic why)
          | err e ↦ some (r.0, err e)
          | ok [] ↦ some (r.0, ok names)
          | ok (k ∷ ks) ↦ list_loop fuel start (names ++ (k ∷ ks)) r.0
        ]

    abbrev pub listed : Text → ℤ → S × Result (List Text) → S × Result (List Text × Text)
    listed prefix n r = and_then r (λ names. give (Listing.list names prefix n))

    unfoldable pub list : ℕ → Text → ℤ → S → Option (S × Result (List Text × Text))
    list fuel prefix n s = Option.map (listed prefix n) (list_loop fuel prefix [] s)
