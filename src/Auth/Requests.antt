-- ===== src/Auth/Requests.antt =====
-- What the server reads of an HTTP request (internal/api/api.go), a policy and an identity.
use kes.Prelude.{Bool, Option, List, ℤ, Text, text_eq}
use kes.Api.Errors.{Error}

-- The two fields of an x509.Certificate that the server reads.
pub record Certificate : Type 0 where
  pub is_ca : Bool
  pub public_key_info : Text

-- A http.Request; `tls` holds the peer certificates of the connection, `none` without TLS.
pub record HttpRequest : Type 0 where
  pub method : Text
  pub path : Text
  pub content_length : ℤ
  pub body : Text
  -- the limit of an http.MaxBytesReader around the body, if there is one
  pub max_bytes : Option ℤ
  pub tls : Option (List Certificate)

-- api.Request, without the time of arrival.
pub record Request : Type 0 where
  pub http : HttpRequest
  pub identity : Text
  pub resource : Text

-- kes.Policy of the SDK: two sets of rules, by their patterns.
pub record Policy : Type 0 where
  pub allow : List Text
  pub deny : List Text

-- identityEntry of state.go
pub record IdentityEntry : Type 0 where
  pub name : Text
  pub policy : Policy

-- hex.EncodeToString(sha256.Sum256(...)), and Verify of kes.Policy; `none` is a nil error.
pub record Identification : Type 0 where
  pub fingerprint : Text → Text
  pub verify : Policy → HttpRequest → Option Error
