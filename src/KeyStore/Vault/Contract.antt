-- ===== src/KeyStore/Vault/Contract.antt =====
-- Create and Get of the Vault key store over the K/V engine, version 1, and the transit engine.
use kes.Prelude.{
  ◌≡◌, refl, ap, ◌∙◌, true, false, not, ◌||◌, Option, none, some, [], ◌∷◌, ◌++◌, ◌==◌, Text, codes,
  has_prefix, text_beq, text_beq_iff, text_eq, nat_eq, arith,
}
use kes.Api.Errors.{Result, ok}
use kes.KeyStore.Remote.{
  and_then-eq-ok, changed-eq-ok, guard-eq-ok, changed, guard, fail_first, failure,
}
use kes.KeyStore.Vault.{
  RawResponse, Sdk, Library, Store, err_sealed, is_v2, transit_prefix, location, create_failed,
  encrypt_failed,
}
use kes.KeyStore.Vault.Answers.{ciphertext_in-eq-ok, plaintext_in-found, accepted-eq-ok}
use kes.KeyStore.Vault.Responses.{existing, entry_of}
use kes.KeyStore.Vault.Operations.{
  transit_path, encrypt_value, decrypt_value, opened, put_entry, create, get,
}
use kes.KeyStore.Json.{text, Fields, field, end, find}
use kes.Conf.File.{VaultTransit}

-- What is documented of the K/V engine, version 1: `stored` is the entry at a path. A read that
-- succeeds returns it, and an entry that is put with success is there.
pub record IsKv1 (lib : Library) {S : Type 0} (sdk : Sdk S) (stored : Text → S → Option Fields)
    : Type 0 where
  pub gets :
      (engine place : Text) (s t : S) (found : Option Fields)
      → sdk.kv1_get engine place s ≡ (t, ok found)
      → found ≡ stored (lib.join (engine ∷ place ∷ [])) s
  pub puts :
      (path : Text) (body : Fields) (s t : S) (resp : RawResponse)
      → sdk.request (codes "PUT") (codes "/v1/" ++ path) body s ≡ (t, ok resp)
      → (resp.status_code == 204 || resp.status_code == 200) ≡ true
      → stored path t ≡ some body

-- What is documented of the transit engine: where it decrypts with success what it has encrypted, it
-- returns what was encrypted.
pub record IsTransit (lib : Library) {S : Type 0} (sdk : Sdk S) : Type 0 where
  pub decrypts :
      (t : VaultTransit) (plaintext ciphertext : Text) (a b u w : S) (resp answer : RawResponse)
      (fields found : Fields)
      → sdk.request
          (codes "POST")
          (transit_path lib t (codes "encrypt"))
          (field (codes "plaintext") (text plaintext) end)
          a
        ≡ (b, ok resp)
      → lib.parse_secret resp.body ≡ ok (some fields)
      → find (codes "ciphertext") fields ≡ some (text ciphertext)
      → sdk.request
          (codes "POST")
          (transit_path lib t (codes "decrypt"))
          (field (codes "ciphertext") (text ciphertext) end)
          u
        ≡ (w, ok answer)
      → answer.status_code ≡ 200
      → lib.parse_secret answer.body ≡ ok (some found)
      → find (codes "plaintext") found ≡ some (text plaintext)
  pub decodes : (b : Text) → lib.base64_decode (lib.base64_encode b) ≡ ok b

module _ (lib : Library) {S : Type 0} (sdk : Sdk S) where
  -- The transit engine answers a decryption in this state, with 200 and a body that parses.
  abbrev pub Decrypts : VaultTransit → S → Type 0
  Decrypts t u =
      (ciphertext : Text)
      → (w : S) × (answer : RawResponse) × (found : Fields) × (sdk.request (codes "POST")
            (transit_path lib t (codes "decrypt"))
            (field (codes "ciphertext") (text ciphertext) end) u
          ≡ (w, ok answer))
        × (answer.status_code ≡ 200)
        × (lib.parse_secret answer.body ≡ ok (some found))

  -- What is encrypted for an entry is decrypted.
  opened-encrypt_value :
      IsTransit lib sdk
      → (place here : Text) (transit : Option VaultTransit) (value v : Text) (a b u : S)
      → ((t : VaultTransit) → transit ≡ some t → Decrypts t u)
      → has_prefix transit_prefix value ≡ false
      → encrypt_value lib sdk place transit value a ≡ (b, ok v)
      → (opened lib sdk here transit v u).1 ≡ ok value
  unfolding encrypt_value decrypt_value
  opened-encrypt_value law place here none value v a b u answers plain_text h = ground arith
  opened-encrypt_value law place here (some t) value v a b u answers plain_text h =
      let sent =
        sdk.request (codes "POST") (transit_path lib t (codes "encrypt"))
          (field (codes "plaintext") (text (lib.base64_encode value)) end) a in
      let (s1, resp, e, rest) = and_then-eq-ok (changed (encrypt_failed lib place) sent) _ h in
      let (fields, parsed, found, prefixed) =
        ciphertext_in-eq-ok lib place resp (ap (λ (p : S × Result Text). p.1) rest) in
      let (w, answer, fields', asked, fine, parsed') = answers t refl v in
      let found' =
        law.decrypts t (lib.base64_encode value) v a s1 u w resp answer fields fields'
          (changed-eq-ok (encrypt_failed lib place) sent e) parsed found asked fine parsed' in
      rw
        (
          prefixed,
          asked,
          plaintext_in-found lib here (lib.base64_encode value) answer fields' fine parsed' found',
          law.decodes value,
        )
        refl

  put_entry-stored :
      (stored : Text → S → Option Fields)
      → IsKv1 lib sdk stored
      → (place name value : Text) (s : Store) (a b : S) → is_v2 s.config ≡ false
      → put_entry lib sdk place s.config name value a ≡ (b, ok tt)
      → stored place b ≡ some (field name (text value) end)
  unfolding put_entry
  put_entry-stored stored law place name value s a b v h =
      let sent =
        sdk.request (codes "PUT") (codes "/v1/" ++ place) (entry_of s.config name value) a in
      let (t, resp, e, rest) = and_then-eq-ok (changed (create_failed lib place) sent) _ h in
      let taken = accepted-eq-ok lib place resp (ap (λ (p : S × Result (Unit {0})). p.1) rest) in
      let same : t ≡ b = ap (λ (p : S × Result (Unit {0})). p.0) rest in
      let put =
        law.puts place (entry_of s.config name value) a t resp
          (changed-eq-ok (create_failed lib place) sent e) taken in
      rw (← same, put, v) refl

  get_stored :
      (stored : Text → S → Option Fields)
      → IsKv1 lib sdk stored
      → (s : Store) (name sent value : Text) (b c : S) (entry : Option Fields) → s.connected ≡ true
      → s.sealed ≡ false
      → is_v2 s.config ≡ false
      → lib.join (s.config.engine ∷ lib.join (s.config.prefix ∷ name ∷ []) ∷ [])
        ≡ location lib s.config name
      → sdk.kv1_get s.config.engine (lib.join (s.config.prefix ∷ name ∷ [])) b ≡ (c, ok entry)
      → stored (location lib s.config name) b ≡ some (field name (text sent) end)
      → (opened lib sdk (lib.join (s.config.prefix ∷ name ∷ [])) s.config.transit sent c).1
        ≡ ok value
      → (get lib sdk s name b).1 ≡ ok value
  unfolding get
  get_stored stored law s name sent value b c entry connected unsealed v same_place read put shown =
      let here = lib.join (s.config.prefix ∷ name ∷ []) in
      let same : text_beq name name ≡ true = (text_beq_iff name name).1 refl in
      let found : entry ≡ some (field name (text sent) end) =
        law.gets s.config.engine here b c entry read ∙ rw (same_place, put) refl in
      rw (connected, unsealed, v, read, found, same) shown

  pub get_created :
      (stored : Text → S → Option Fields)
      → IsKv1 lib sdk stored
      → IsTransit lib sdk
      → (s : Store) (name value : Text) (a b c : S) (entry : Option Fields) → is_v2 s.config ≡ false
      → has_prefix transit_prefix value ≡ false
      → lib.join (s.config.engine ∷ lib.join (s.config.prefix ∷ name ∷ []) ∷ [])
        ≡ location lib s.config name
      → create lib sdk s name value a ≡ (b, ok tt)
      → sdk.kv1_get s.config.engine (lib.join (s.config.prefix ∷ name ∷ [])) b ≡ (c, ok entry)
      → ((t : VaultTransit) → s.config.transit ≡ some t → Decrypts t c)
      → (get lib sdk s name b).1 ≡ ok value
  unfolding create
  get_created stored law transit s name value a b c entry v plain_text same_place h read answers =
      let place = location lib s.config name in
      let (a1, u1, e1, r1) =
        and_then-eq-ok
          (guard s.connected (failure "vault: no connection to %s" (s.config.endpoint ∷ [])) a) _
          h in
      let (connected, same1) = guard-eq-ok s.connected _ a e1 in
      let (a2, u2, e2, r2) = and_then-eq-ok (guard (not s.sealed) err_sealed a1) _ r1 in
      let (unsealed, same2) = guard-eq-ok (not s.sealed) err_sealed a1 e2 in
      let (a3, secret, e3, r3) =
        and_then-eq-ok (changed (create_failed lib place) (sdk.read place a2)) _ r2 in
      let (a4, u4, e4, r4) =
        and_then-eq-ok (fail_first (existing lib s.config name secret) a3) _ r3 in
      let (a5, sent, e5, r5) =
        and_then-eq-ok (encrypt_value lib sdk place s.config.transit value a4) _ r4 in
      let put = put_entry-stored stored law place name sent s a5 b v r5 in
      let here = lib.join (s.config.prefix ∷ name ∷ []) in
      let shown =
        opened-encrypt_value transit place here s.config.transit value sent a4 a5 c answers
          plain_text e5 in
      get_stored stored law s name sent value b c entry connected (ground arith) v same_place read
        put shown
