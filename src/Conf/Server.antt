-- ===== src/Conf/Server.antt =====
-- ymlToServerConfig of kesconf/config.go: the checks on a decoded configuration file, and the File
-- that it becomes.
pub mod Accepted
use kes.Prelude.{
  String, Bool, not, ◌&&◌, Option, none, some, List, [], ◌∷◌, if◌then◌else◌, ℤ, is_negative, Text,
  codes, text_beq, text_eq,
}
use kes.Prelude.Maps.{Assoc, contains}
use kes.Api.Errors.{Result, ok, err, plain, ◌>>=◌, ◌>>◌, require}
use kes.Conf.Sections.{Env}
use kes.Conf.Yml.{YmlPolicy, YmlPath, YmlFile}
use kes.Conf.File.{
  ClientAuthType, request_client_cert, require_any_client_cert, verify_client_cert_if_given,
  require_and_verify_client_cert, ApiPathConfig, Policy, File, KeyStore,
}
use kes.Conf.Checks.{Os, refuse_if, required}
use kes.Conf.Clouds.{values}
use kes.Conf.Stores.{yml_to_key_store}
use kes.Conf.Texts.{to_lower}
use kes.Conf.Levels.{parse_log_level}

-- return nil, fmt.Errorf(format, args...), if the test holds
abbrev pub refuse_with : Bool → String → List Text → Result (Unit {0})
refuse_with test format args = require (not test) (plain (record { format = format; args = args }))

-- The client authentication that tls.auth asks for; `%s` prints the Env of the text.
unfoldable pub client_auth_of : Env Text → Result ClientAuthType
client_auth_of auth =
    let v = to_lower auth.value in
    if not (text_beq v []) && (not (text_beq v (codes "on")) && not (text_beq v (codes "off")))
    then err (
        plain (record {
          format = "kesconf: invalid tls config: invalid auth '{%s %s}'";
          args = auth.variable ∷ auth.value ∷ [];
        }))
    else ok (
        if text_beq v (codes "on") then require_and_verify_client_cert else require_any_client_cert)

abbrev pub check_proxies : Text → List Text → Result (Unit {0})
check_proxies admin [] = ok tt
check_proxies admin (proxy ∷ proxies) =
    refuse_with (text_beq proxy admin) "kesconf: invalid tls proxy: identity '%s' is already admin"
      (proxy ∷ [])
    >> check_proxies admin proxies

-- One identity of one policy, against each proxy.
abbrev pub check_proxy : Text → Text → List Text → Result (Unit {0})
check_proxy name identity [] = ok tt
check_proxy name identity (proxy ∷ proxies) =
    refuse_with (text_beq identity proxy)
      "kesconf: invalid policy '%s': identity '%s' is already a TLS proxy" (name ∷ identity ∷ [])
    >> check_proxy name identity proxies

abbrev pub check_identities : Text → List Text → Text → List Text → Result (Unit {0})
check_identities admin proxies name [] = ok tt
check_identities admin proxies name (identity ∷ identities) =
    refuse_with (text_beq identity admin)
      "kesconf: invalid policy '%s': identity '%s' is already admin" (name ∷ identity ∷ [])
    >> check_proxy name identity proxies
    >> check_identities admin proxies name identities

abbrev pub check_policies : Text → List Text → Assoc Text YmlPolicy → Result (Unit {0})
check_policies admin proxies [] = ok tt
check_policies admin proxies ((name, policy) ∷ policies) =
    check_identities admin proxies name (values policy.identities)
    >> check_policies admin proxies policies

-- An API that skips authentication takes the requirement of a client certificate back.
abbrev pub relax : ClientAuthType → ClientAuthType
relax require_any_client_cert = request_client_cert
relax require_and_verify_client_cert = verify_client_cert_if_given
relax auth = auth

-- The text of a duration in an error is left out.
unfoldable pub check_paths : ClientAuthType → Assoc Text YmlPath → Result ClientAuthType
check_paths auth [] = ok auth
check_paths auth ((path, api) ∷ paths) =
    refuse_with (is_negative api.timeout.value) "kesconf: invalid timeout for API '%s'" (path ∷ [])
    >> check_paths (if api.insecure_skip_auth.value then relax auth else auth) paths

-- The keys, with the names that have been met.
abbrev pub check_keys : List Text → List Text → Result (Unit {0})
check_keys names [] = ok tt
check_keys names (key ∷ keys) =
    refuse_with (contains key names)
      "kesconf: invalid key config: key '%s' is defined multiple times" (key ∷ [])
    >> check_keys (key ∷ names) keys

abbrev pub policies_of : Assoc Text YmlPolicy → Assoc Text Policy
policies_of [] = []
policies_of ((name, policy) ∷ policies) =
    (
      name,
      record { allow = policy.allow; deny = policy.deny; identities = values policy.identities },
    )
    ∷ policies_of policies

abbrev pub paths_of : Assoc Text YmlPath → Assoc Text ApiPathConfig
paths_of [] = []
paths_of ((path, api) ∷ paths) =
    (
      path,
      record { timeout = api.timeout.value; insecure_skip_auth = api.insecure_skip_auth.value },
    )
    ∷ paths_of paths

abbrev pub api_of : Assoc Text YmlPath → Option (Assoc Text ApiPathConfig)
api_of [] = none
api_of (path ∷ paths) = some (paths_of (path ∷ paths))

-- The checks before the key store, with the client authentication and the log levels they find.
unfoldable pub check_tls : (Text → Bool) → YmlFile → Result ClientAuthType
check_tls is_unknown y = do
  refuse_with (not (text_beq y.version []) && not (text_beq y.version (codes "v1")))
      "kesconf: invalid config version '%s'" (y.version ∷ [])
  refuse_if (is_unknown y.admin_identity.value) "kesconf: invalid admin identity: no admin identity"
  required y.tls.private_key "kesconf: invalid tls config: no private key"
  required y.tls.certificate "kesconf: invalid tls config: no certificate"
  client_auth_of y.tls.client_auth

unfoldable pub check_cache : YmlFile → Result (Unit {0})
check_cache y = do
  refuse_if (is_negative y.cache_expiry.any.value) "kesconf: invalid cache expiry"
  refuse_if (is_negative y.cache_expiry.unused.value) "kesconf: invalid cache unused expiry"
  refuse_if (is_negative y.cache_expiry.offline.value) "kesconf: invalid offline cache expiry"

abbrev pub file_of : YmlFile → ClientAuthType → ℤ → ℤ → KeyStore → File
file_of y auth err_level audit_level keystore = record {
  addr = y.addr.value;
  admin = y.admin_identity.value;
  tls = some (record {
    private_key = y.tls.private_key.value;
    certificate = y.tls.certificate.value;
    password = y.tls.password.value;
    client_auth = auth;
    ca_path = y.tls.ca_path.value;
    proxies = values y.tls.proxy.identities;
    forward_cert_header = y.tls.proxy.header_client_cert.value;
  });
  cache = some (record {
    expiry = y.cache_expiry.any.value;
    expiry_unused = y.cache_expiry.unused.value;
    expiry_offline = y.cache_expiry.offline.value;
  });
  log = some (record { err_level = err_level; audit_level = audit_level });
  api_paths = api_of y.api_paths;
  policies = policies_of y.policies;
  keys = values y.keys;
  key_store = some keystore;
}

-- The second loop over the timeouts of the paths.
abbrev pub check_timeouts : Assoc Text YmlPath → Result (Unit {0})
check_timeouts [] = ok tt
check_timeouts ((path, api) ∷ paths) =
    refuse_with (is_negative api.timeout.value) "kesconf: invalid timeout for API '%s'" (path ∷ [])
    >> check_timeouts paths

-- `is_unknown` is Identity.IsUnknown of the kms-go SDK.
unfoldable pub yml_to_server_config : (Text → Bool) → Os → YmlFile → Result File
yml_to_server_config is_unknown os y =
    let admin = y.admin_identity.value in
    let proxies = values y.tls.proxy.identities in
    do
      auth ← check_tls is_unknown y
      check_proxies admin proxies
      check_policies admin proxies y.policies
      check_cache y
      err_level ← parse_log_level y.log.error.value
      audit_level ← parse_log_level y.log.audit.value
      relaxed ← check_paths auth y.api_paths
      check_keys [] (values y.keys)
      keystore ← yml_to_key_store os y.key_store
      check_timeouts y.api_paths
      ok (file_of y relaxed err_level audit_level keystore)
