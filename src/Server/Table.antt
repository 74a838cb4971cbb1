-- ===== src/Server/Table.antt =====
-- initRoutes of state.go: the table of the server's API, and its changes by a configuration.
pub mod Configured
use kes.Prelude.{
  ◌*◌, Option, none, some, [], ◌∷◌, if◌then◌else◌, ℤ, pos, is_positive, Text, codes, text_eq, ℕ,
  arith,
}
use kes.Prelude.Maps.{Assoc, lookup, put}
use kes.Server.Config.{RouteConfig}

-- api.InsecureSkipVerify, verifyIdentity and insecureIdentifyOnly
pub data Authenticator : Type 0 where
  skip_verify verify_identity identify_only : Authenticator

-- The method of Server that handles the requests.
pub data HandlerName : Type 0 where
  version ready status metrics list_apis : HandlerName
  create_key import_key describe_key list_keys delete_key : HandlerName
  encrypt_key generate_key decrypt_key hmac_key : HandlerName
  describe_policy read_policy list_policies : HandlerName
  describe_identity list_identities self_describe_identity : HandlerName
  log_error log_audit : HandlerName

-- The handler as it is, in metrics.Latency and metrics.Count, or in an event counter.
pub data Measured : Type 0 where
  unmeasured counted error_events audit_events : Measured

pub record TableRoute : Type 0 where
  pub method : Text
  pub path : Text
  pub max_body : ℤ
  pub timeout : ℤ
  pub auth : Authenticator
  pub handler : HandlerName
  pub measured : Measured

abbrev pub seconds : ℕ → ℤ
seconds n = pos (n * 1000000000)

-- A route whose handler's latency and requests are measured, with 15 seconds.
abbrev pub counted_route : Text → Text → ℤ → Authenticator → HandlerName → Text × TableRoute
counted_route method path max_body auth handler = (
  path,
  record {
    method = method;
    path = path;
    max_body = max_body;
    timeout = seconds 15;
    auth = auth;
    handler = handler;
    measured = counted;
  },
)

-- A GET route without a body.
abbrev pub plain_route : Text → ℤ → Authenticator → HandlerName → Measured → Text × TableRoute
plain_route path timeout auth handler measured = (
  path,
  record {
    method = codes "GET";
    path = path;
    max_body = pos 0;
    timeout = timeout;
    auth = auth;
    handler = handler;
    measured = measured;
  },
)

abbrev pub version_path : Text
version_path = codes "/version"

abbrev pub self_describe_path : Text
self_describe_path = codes "/v1/identity/self/describe"

abbrev pub get : Text
get = codes "GET"

abbrev pub put_method : Text
put_method = codes "PUT"

-- The routes before any change; `mb` is mem.MB of aead.dev/mem.
abbrev pub default_routes : ℤ → Assoc Text TableRoute
default_routes mb =
    plain_route version_path (seconds 10) skip_verify version unmeasured
    ∷ plain_route (codes "/v1/ready") (seconds 15) verify_identity ready unmeasured
    ∷ plain_route (codes "/v1/status") (seconds 15) verify_identity status unmeasured
    ∷ plain_route (codes "/v1/metrics") (seconds 15) verify_identity metrics unmeasured
    ∷ plain_route (codes "/v1/api") (seconds 10) verify_identity list_apis unmeasured
    ∷ counted_route put_method (codes "/v1/key/create/") (pos 0) verify_identity create_key
    ∷ counted_route put_method (codes "/v1/key/import/") mb verify_identity import_key
    ∷ counted_route get (codes "/v1/key/describe/") (pos 0) verify_identity describe_key
    ∷ counted_route get (codes "/v1/key/list/") (pos 0) verify_identity list_keys
    ∷ counted_route (codes "DELETE") (codes "/v1/key/delete/") (pos 0) verify_identity delete_key
    ∷ counted_route put_method (codes "/v1/key/encrypt/") mb verify_identity encrypt_key
    ∷ counted_route put_method (codes "/v1/key/generate/") mb verify_identity generate_key
    ∷ counted_route put_method (codes "/v1/key/decrypt/") mb verify_identity decrypt_key
    ∷ counted_route put_method (codes "/v1/key/hmac/") mb verify_identity hmac_key
    ∷ counted_route get (codes "/v1/policy/describe/") (pos 0) verify_identity describe_policy
    ∷ counted_route get (codes "/v1/policy/read/") (pos 0) verify_identity read_policy
    ∷ counted_route get (codes "/v1/policy/list/") (pos 0) verify_identity list_policies
    ∷ counted_route get (codes "/v1/identity/describe/") (pos 0) verify_identity describe_identity
    ∷ counted_route get (codes "/v1/identity/list/") (pos 0) verify_identity list_identities
    ∷ counted_route get self_describe_path (pos 0) identify_only self_describe_identity
    ∷ plain_route (codes "/v1/log/error") (pos 0) verify_identity log_error error_events
    ∷ plain_route (codes "/v1/log/audit") (pos 0) verify_identity log_audit audit_events
    ∷ []

-- The changes to one route.
abbrev pub customize : RouteConfig → TableRoute → TableRoute
customize conf route = record route {
  auth = if conf.insecure_skip_auth then identify_only else route.auth;
  timeout = if is_positive conf.timeout then conf.timeout else route.timeout;
}

abbrev pub customize_path :
    Text → RouteConfig → Option TableRoute → Assoc Text TableRoute → Assoc Text TableRoute
customize_path path conf none routes = routes
customize_path path conf (some route) routes = put path (customize conf route) routes

-- The loop over the configuration.
unfoldable pub apply_config : Assoc Text RouteConfig → Assoc Text TableRoute → Assoc Text TableRoute
apply_config [] routes = routes
apply_config ((path, conf) ∷ more) routes =
    apply_config more (customize_path path conf (lookup path routes) routes)

-- The table, of which the mux has one handler for each path.
unfoldable pub init_routes : ℤ → Assoc Text RouteConfig → Assoc Text TableRoute
init_routes mb config = apply_config config (default_routes mb)
