-- ===== src/Auth/Identify.antt =====
-- identifyRequest and the two authenticators of auth.go.
pub mod Decisions
use kes.Prelude.{
  true, false, Option, none, some, List, [], ◌∷◌, arith, if◌then◌else◌, Text, text_beq, text_eq,
}
use kes.Prelude.Maps.{Assoc, lookup}
use kes.Api.Errors.{Result, ok, err, panic, code_error, message, sdk, not_allowed}
use kes.Auth.Requests.{Certificate, HttpRequest, Request, IdentityEntry, Identification}

-- The loop over the peer certificates; `cert` is the client certificate met so far.
unfoldable pub client_cert : Option Certificate → List Certificate → Result (Option Certificate)
client_cert cert [] = ok cert
client_cert cert (c ∷ cs) = elim c.is_ca [
  | true ↦ client_cert cert cs
  | false ↦ elim cert [
    | some _ ↦ err (code_error 400 (message "tls: received more than one client certificate"))
    | none ↦ client_cert (some c) cs
  ]
]

module _ (i : Identification) where
  unfoldable pub identify : Result (Option Certificate) → Result Text
  identify (err e) = err e
  identify (panic m) = panic m
  identify (ok none) = err (code_error 400 (message "tls: client certificate is required"))
  identify (ok (some cert)) = ok (i.fingerprint cert.public_key_info)

  unfoldable pub identify_request : Option (List Certificate) → Result Text
  identify_request none = err (code_error 400 (message "insecure connection: TLS is required"))
  identify_request (some certs) = identify (client_cert none certs)

  -- &api.Request{Request: req, Identity: identity}; the resource is set by the route.
  abbrev pub request_of : HttpRequest → Text → Request
  request_of req identity = record { http = req; identity = identity; resource = [] }

  unfoldable pub by_policy : HttpRequest → Text → Option IdentityEntry → Result Request
  by_policy req identity none = err (sdk not_allowed)
  by_policy req identity (some entry) = elim (i.verify entry.policy req) [
    | some e ↦ err (sdk not_allowed)
    | none ↦ ok (request_of req identity)
  ]

  unfoldable pub authorize :
      Text → Assoc Text IdentityEntry → HttpRequest → Result Text → Result Request
  authorize admin identities req (err e) = err e
  authorize admin identities req (panic m) = panic m
  authorize admin identities req (ok identity) =
      if text_beq identity admin
      then ok (request_of req identity)
      else by_policy req identity (lookup identity identities)

  -- Authenticate of verifyIdentity, with the admin and the identities of the server's state.
  unfoldable pub verify_identity : Text → Assoc Text IdentityEntry → HttpRequest → Result Request
  verify_identity admin identities req = authorize admin identities req (identify_request req.tls)

  abbrev or_empty : Result Text → Text
  or_empty (ok identity) = identity
  or_empty _ = []

  -- Authenticate of insecureIdentifyOnly.
  unfoldable pub insecure_identify_only : HttpRequest → Result Request
  insecure_identify_only req = ok (request_of req (or_empty (identify_request req.tls)))

-- Authenticate of insecureSkipVerify (internal/api/api.go).
unfoldable pub insecure_skip_verify : HttpRequest → Result Request
insecure_skip_verify req = ok (record { http = req; identity = []; resource = [] })
