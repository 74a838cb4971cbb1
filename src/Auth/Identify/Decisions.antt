-- ===== src/Auth/Identify/Decisions.antt =====
-- Which requests the authentication of auth.go lets through.
use kes.Prelude.{
  ◌≡◌, refl, ap, ◌∙◌, Bool, false, not, ◌||◌, Option, none, some, List, [], ◌∷◌, arith,
  if◌then◌else◌, is_some, select, Text, text_beq, text_eq,
}
use kes.Prelude.Maps.{Assoc, lookup}
use kes.Api.Errors.{Result, ok, err, panic, code_error, message, sdk, not_allowed}
use kes.Auth.Requests.{Certificate, HttpRequest, Request, IdentityEntry, Identification}
use kes.Auth.Identify.{
  client_cert, identify, identify_request, request_of, by_policy, authorize, verify_identity,
}

-- The certificates that are not those of an authority.
abbrev pub client_certs : List Certificate → List Certificate
client_certs = select (λ c. not c.is_ca)

-- The identity of a request: that of its one client certificate.
abbrev pub sole_identity : Identification → List Certificate → Result Text
sole_identity i [] = err (code_error 400 (message "tls: client certificate is required"))
sole_identity i (c ∷ []) = ok (i.fingerprint c.public_key_info)
sole_identity i (c ∷ d ∷ cs) =
    err (code_error 400 (message "tls: received more than one client certificate"))

abbrev with_met : Option Certificate → List Certificate → List Certificate
with_met none cs = cs
with_met (some c) cs = c ∷ cs

client_cert_lem :
    (i : Identification) (met : Option Certificate) (certs : List Certificate)
    → identify i (client_cert met certs) ≡ sole_identity i (with_met met (client_certs certs))
unfolding identify client_cert
client_cert_lem i none [] = refl
client_cert_lem i (some c) [] = refl
client_cert_lem i none (c ∷ cs) =
    ground (arith, client_cert_lem i none cs, client_cert_lem i (some c) cs)
client_cert_lem i (some d) (c ∷ cs) = ground (arith, client_cert_lem i (some d) cs)

-- A request over TLS is identified by its client certificates: there must be exactly one that is not
-- that of an authority, wherever it stands in the list.
pub identify_request_lem :
    (i : Identification) (certs : List Certificate)
    → identify_request i (some certs) ≡ sole_identity i (client_certs certs)
unfolding identify_request
identify_request_lem i certs = client_cert_lem i none certs

-- Whether the server lets an identity send a request: it is the admin's, or it has a policy that
-- accepts the request.
abbrev pub allowed : Identification → Text → Assoc Text IdentityEntry → HttpRequest → Text → Bool
allowed i admin identities req identity =
    text_beq identity admin || (elim (lookup identity identities) [
      | none ↦ false
      | some entry ↦ not (is_some (i.verify entry.policy req))
    ])

abbrev pub decide :
    Identification → Text → Assoc Text IdentityEntry → HttpRequest → Result Text → Result Request
decide i admin identities req (ok identity) =
    if allowed i admin identities req identity
    then ok (request_of i req identity)
    else err (sdk not_allowed)
decide i admin identities req (err e) = err e
decide i admin identities req (panic m) = panic m

authorize_lem :
    (i : Identification) (admin : Text) (identities : Assoc Text IdentityEntry) (req : HttpRequest)
    (r : Result Text)
    → authorize i admin identities req r ≡ decide i admin identities req r
unfolding authorize by_policy
authorize_lem i admin identities req (err e) = refl
authorize_lem i admin identities req (panic m) = refl
authorize_lem i admin identities req (ok identity) = ground arith

-- A request over TLS is let through, under the identity of its sole client certificate, exactly if
-- that identity is the admin's or has a policy that accepts the request. It is refused with
-- ErrNotAllowed if it has neither, and with status 400 if there is no sole client certificate.
pub verify_identity_lem :
    (i : Identification) (admin : Text) (identities : Assoc Text IdentityEntry) (req : HttpRequest)
    (certs : List Certificate)
    → req.tls ≡ some certs
    → verify_identity i admin identities req
      ≡ decide i admin identities req (sole_identity i (client_certs certs))
unfolding verify_identity
verify_identity_lem i admin identities req certs t =
    authorize_lem i admin identities req (identify_request i req.tls)
    ∙ ap (decide i admin identities req) (ap (identify_request i) t ∙ identify_request_lem i certs)
