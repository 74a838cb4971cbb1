-- ===== src/Server/State.antt =====
-- The state of a server (serverState of state.go), what its handlers send (internal/api), and what
-- they take from outside.
use kes.Prelude.{ℕ, String, Bool, Option, none, some, List, [], ◌∷◌, Text, text_eq}
use kes.Prelude.Maps.{Assoc}
use kes.Api.Errors.{Error, Result, ok, err, panic, Message, is_error}
use kes.Auth.Requests.{Policy, IdentityEntry, Request}
use kes.KeyStore.Cache.{KeyCache}

-- A call of Audit.Log.
pub record AuditEvent : Type 0 where
  pub what : Message
  pub status_code : ℕ
  pub request : Request

-- The fields that the handlers below read and write; the audit log is what has been logged so far.
-- Logs of errors and metrics are not modelled.
pub record ServerState (S : Type 0) : Type 0 where
  pub start_time : ℕ
  pub admin : Text
  pub keys : KeyCache S
  pub policies : Assoc Text Policy
  pub identities : Assoc Text IdentityEntry
  pub audit : List AuditEvent

-- ReadPolicyResponse; CreatedAt and CreatedBy are those of the response that it stands in.
pub record PolicyBody : Type 0 where
  pub name : Text
  pub allow : List Text
  pub deny : List Text

-- The JSON bodies of internal/api/response.go.
pub data Body : Type 0 where
  -- name, algorithm, created at, created by
  describe_key_body : Text → Text → ℕ → Text → Body
  -- names, continue at
  list_keys_body : List Text → Text → Body
  encrypt_key_body : Text → Body
  -- plaintext, ciphertext
  generate_key_body : Text → Text → Body
  decrypt_key_body : Text → Body
  hmac_body : Text → Body
  -- name, created at, created by
  describe_policy_body : Text → ℕ → Text → Body
  -- policy, created at, created by
  read_policy_body : PolicyBody → ℕ → Text → Body
  list_policies_body : List Text → Body
  -- is admin, policy, created at, created by
  describe_identity_body : Bool → Text → ℕ → Text → Body
  list_identities_body : List Text → Body
  -- identity, is admin, created at, created by, policy
  self_describe_body : Text → Bool → ℕ → Text → Option PolicyBody → Body

-- What a handler sends, in order. `fail_error` is Failr: the status is that of the error.
pub data Reply : Type 0 where
  reply : ℕ → Reply
  reply_with : ℕ → Body → Reply
  fail : ℕ → Message → Reply
  fail_error : Error → Reply
  -- the handler panicked
  crash : Message → Reply

abbrev pub Handled : Type 0 → Type 0
Handled S = ServerState S × List Reply

-- if err, ok := api.IsError(err); ok { resp.Failr(err); return }; ...; resp.Fail(code, msg)
unfoldable pub fail_or : Error → ℕ → Message → List Reply
fail_or e code msg = elim (is_error e) [ some a ↦ fail_error a ∷ [] | none ↦ fail code msg ∷ [] ]

-- The continuation of `if err != nil { ...; return }`, with what is sent for an error.
unfoldable pub on_ok {ℓ} :
    {S : Type 0} {A : Type ℓ}
    → ServerState S
    → Result A
    → (Error → List Reply)
    → (A → Handled S)
    → Handled S
on_ok st (ok a) refuse k = k a
on_ok st (err e) refuse k = (st, refuse e)
on_ok st (panic m) refuse k = (st, crash m ∷ [])

abbrev pub invalid_name : String → Text → List Reply
invalid_name format resource = fail 400 (record { format = format; args = resource ∷ [] }) ∷ []
