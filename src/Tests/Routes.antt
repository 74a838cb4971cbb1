-- ===== src/Tests/Routes.antt =====
-- A route over an in-memory store.
use kes.Prelude.{◌≡◌, refl, none, some, [], pos, length, codes, text_eq}
use kes.Api.Errors.{Result, ok, err, sdk, not_allowed}
use kes.Auth.Requests.{HttpRequest, Request}
use kes.KeyStore.Memory.{MemKeyStore, mem_key_store}
use kes.Server.Keys.{delete_key}
use kes.Server.Routes.{
  Route, deadline_set, canonical, exceeds, limited_length, limit_body, prepared, serve_http,
}
use kes.Server.Routes.Dispatch.{serve_http-refused}
use kes.Tests.Handlers.{libraries, world, server}

-- A route of initRoutes with an authenticator that refuses every client but one.
abbrev authenticate : HttpRequest → Result Request
authenticate r = elim r.tls [
  | none ↦ err (sdk not_allowed)
  | some certs ↦ ok (record { http = r; identity = codes "alice"; resource = [] })
]

abbrev delete_route : Route MemKeyStore
delete_route = record {
  method = codes "PUT";
  path = codes "/v1/key/delete/";
  max_body = pos 0;
  timeout = pos 15;
  auth = authenticate;
  handler = delete_key mem_key_store libraries world;
}

abbrev delete_request : HttpRequest
delete_request = record {
  method = codes "POST";
  path = codes "v1/key/delete/my-key";
  content_length = pos 7;
  body = [];
  max_bytes = none;
  tls = some [];
}

abbrev anonymous_request : HttpRequest
anonymous_request = record delete_request { tls = none }

anonymous_refused : authenticate (prepared delete_route anonymous_request) ≡ err (sdk not_allowed)
unfolding prepared limit_body limited_length exceeds canonical
anonymous_refused = refl

serve_http-refused_example :
    ((serve_http delete_route deadline_set server anonymous_request).0 ≡ server)
    × (length (serve_http delete_route deadline_set server anonymous_request).1 ≡ 1)
serve_http-refused_example =
    serve_http-refused delete_route server anonymous_request deadline_set (sdk not_allowed)
      anonymous_refused
