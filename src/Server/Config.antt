-- ===== src/Server/Config.antt =====
-- config.go: the configuration of a server and its check.
use kes.Prelude.{Bool, true, false, not, Option, none, some, List, ℤ, Text}
use kes.Prelude.Maps.{Assoc}
use kes.Api.Errors.{Error, Result, ok, err, plain, message, ◌>>◌, ◌>>=◌, require}
use kes.Conf.File.{ClientAuthType, no_client_cert}
use kes.KeyStore.Cache.{CacheConfig}
use kes.Server.Setup.{PolicyConfig}

pub record RouteConfig : Type 0 where
  pub timeout : ℤ
  pub insecure_skip_auth : Bool

-- The fields of tls.Config that are read: ClientAuth, and whether there is any certificate, by
-- Certificates, GetCertificate or GetConfigForClient. The rest is `settings`.
pub record TlsSettings (T : Type 0) : Type 0 where
  pub has_certificate : Bool
  pub client_auth : ClientAuthType
  pub settings : T

-- S is the key store, T is the rest of a TLS configuration, H is slog.Handler and A is AuditHandler.
-- A nil field is `none`.
pub record Config (S T H A : Type 0) : Type 0 where
  pub admin : Text
  pub tls : Option (TlsSettings T)
  pub cache : Option CacheConfig
  pub policies : Assoc Text PolicyConfig
  pub predefined_keys : List Text
  pub keys : Option S
  pub routes : Assoc Text RouteConfig
  pub error_log : Option H
  pub audit_log : Option A

abbrev pub is_no_client_cert : ClientAuthType → Bool
is_no_client_cert no_client_cert = true
is_no_client_cert auth = false

abbrev pub no_certificate : Error
no_certificate = plain (message "kes: tls config contains no server certificate")

abbrev pub no_client_auth : Error
no_client_auth = plain (message "kes: tls client auth must request client certificate")

-- The two checks of UpdateTLS, which verifyConfig makes too.
unfoldable pub verify_tls : {T : Type 0} → Option (TlsSettings T) → Result (TlsSettings T)
verify_tls none = err no_certificate
verify_tls (some tls) = do
  require tls.has_certificate no_certificate
  require (not (is_no_client_cert tls.client_auth)) no_client_auth
  ok tls

-- The parts of a Config that verifyConfig makes sure are there.
pub record Verified (S T : Type 0) : Type 0 where
  pub tls : TlsSettings T
  pub keys : S

unfoldable pub verify_keys : {S : Type 0} → Option S → Result S
verify_keys none = err (plain (message "kes: config contains no key store"))
verify_keys (some keys) = ok keys

-- verifyConfig, with what it has found.
unfoldable pub verify_config :
    {S T H A : Type 0} → Option (Config S T H A) → Result (Verified S T × Config S T H A)
verify_config none = err no_certificate
verify_config (some c) = do
  tls ← verify_tls c.tls
  keys ← verify_keys c.keys
  ok (record { tls = tls; keys = keys }, c)
