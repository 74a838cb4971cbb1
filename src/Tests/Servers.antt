-- ===== src/Tests/Servers.antt =====
-- A server over an in-memory store: it is started with one predefined key, updated and closed.
use kes.Prelude.{
  ℕ, ◌≡◌, refl, true, false, Option, none, some, [], ◌∷◌, pos, Text, codes, text_eq, is_some,
  nat_eq, ◌==◌,
}
use mathlib.Core.Option
use kes.Prelude.Maps.{Assoc}
use kes.Api.Errors.{Error, Result, ok, err, ◌>>=◌}
use kes.Cache.Cow
use kes.Crypto.Keys.{
  KeyVersion, generate_secret_key, new_secret_key, generate_hmac_key, new_hmac_key,
  determine_secret_key_type, key_version_marshal,
}
use kes.Crypto.Encoding.{encode_key_version}
use kes.KeyStore.Memory
use kes.KeyStore.Memory.{MemKeyStore, mem_key_store}
use kes.KeyStore.Cache
use kes.KeyStore.Cache.{KeyCache, new_cache}
use kes.Conf.File.{require_any_client_cert}
use kes.Server.Config.{RouteConfig, Config, verify_tls, verify_keys, verify_config}
use kes.Server.Logs.{handle, new_log_handler, new_audit_logger}
use kes.Server.Setup.{add_policies, init_policies}
use kes.Server.Lifecycle.{
  Running, Server, new_server, nil_pointer, check_running, check_new, update_admin, update_tls,
  update_policies,
}
use kes.Server.Predefined.{create_one, create_predefined_keys}
use kes.Server.Start.{Environment, update, start}
use kes.Server.Close.{HttpServer, stop, close}
use kes.Server.Reach.{Reach, unused, later, step_start, Reach-parts}
use kes.Server.Closed.{server_closed, closed_after, close-final}
use kes.Server.Updated.{update_log-panics}
use kes.Server.Table.{TableRoute, init_routes}
use kes.Tests.Data.{no_keys, durations, my_key, bytes32}
use kes.Tests.Handlers.{libraries}

abbrev routes : Assoc Text RouteConfig → Assoc Text TableRoute
routes = init_routes (pos 1000000)

-- Log and audit handlers are numbers.
abbrev pub environment : Environment MemKeyStore ℕ ℕ (Assoc Text TableRoute)
environment = record {
  store = mem_key_store;
  libraries = libraries;
  init_routes = routes;
  default_error_log = 1;
  default_audit_log = 2;
  world = λ i. record { first_random = ok bytes32; second_random = ok bytes32; now = 9 };
  now = 7;
}

abbrev conf : Config MemKeyStore (Unit {0}) ℕ ℕ
conf = record {
  admin = codes "admin";
  tls =
      some
        (record { has_certificate = true; client_auth = require_any_client_cert; settings = tt });
  cache = some durations;
  policies = [];
  predefined_keys = my_key ∷ [];
  keys = some no_keys;
  routes = [];
  error_log = none;
  audit_log = none;
}

abbrev MyServer : Type 0
MyServer = Server MemKeyStore (Unit {0}) ℕ ℕ (Assoc Text TableRoute)

abbrev server_or : MyServer → Result MyServer → MyServer
server_or s (ok t) = t
server_or s r = s

abbrev started : MyServer
started = server_or new_server (start environment (codes "127.0.0.1:7373") (some conf) new_server).0

starts : (start environment (codes "127.0.0.1:7373") (some conf) new_server).0 ≡ ok started
unfolding start verify_config verify_tls verify_keys init_policies add_policies check_new
    create_predefined_keys create_one Cache.create Cache.create_encoded generate_secret_key
    new_secret_key generate_hmac_key new_hmac_key determine_secret_key_type encode_key_version
    key_version_marshal Memory.create new_cache kes.Crypto.Keys.secret_key_marshal
    kes.Crypto.Keys.hmac_key_marshal Cow.add
starts = refl

abbrev PartsOf : {S T H A R : Type 0} → Server S T H A R → Type 0
PartsOf s =
    (s.handler ≡ elim s.state [ none ↦ none | some r ↦ some r.routes ])
    × ((is_some s.state ≡ s.started) × ((is_some s.tls ≡ s.started) × (s.srv ≡ s.started)))

abbrev address : Text
address = codes "127.0.0.1:7373"

started_reached : Reach started
started_reached = later unused (step_start environment address (some conf) starts)

Reach-parts_example : PartsOf started
Reach-parts_example = Reach-parts started started_reached

-- The same configuration with another handler for the error log.
abbrev other_log : Config MemKeyStore (Unit {0}) ℕ ℕ
other_log = record conf { error_log = some 5 }

-- A server that runs, with handler 1 for its error log.
abbrev running : Running MemKeyStore ℕ ℕ (Assoc Text TableRoute)
running = record {
  addr = address;
  server = record {
    start_time = 7;
    admin = codes "admin";
    keys = new_cache no_keys;
    policies = [];
    identities = [];
    audit = [];
  };
  cache_config = durations;
  log_handler = new_log_handler 1 (pos 0);
  audit_logger = new_audit_logger 2 (pos 0);
  routes = routes [];
}

abbrev live : MyServer
live = record new_server {
  tls = conf.tls;
  state = some running;
  handler = some (routes []);
  srv = true;
  started = true;
}

abbrev updated_or : MyServer → Result (MyServer × KeyCache MemKeyStore) → MyServer
updated_or s (ok (t, old)) = t
updated_or s r = s

abbrev updated : MyServer
updated = updated_or new_server (update environment (some other_log) live).0

updates : (update environment (some other_log) live).0 ≡ ok (updated, new_cache no_keys)
unfolding update verify_config verify_tls verify_keys init_policies add_policies check_running
    create_predefined_keys create_one Cache.create Cache.create_encoded generate_secret_key
    new_secret_key generate_hmac_key new_hmac_key determine_secret_key_type encode_key_version
    key_version_marshal Memory.create new_cache kes.Crypto.Keys.secret_key_marshal
    kes.Crypto.Keys.hmac_key_marshal Cow.add new_log_handler new_audit_logger
updates = refl

handler_differs : 5 == running.log_handler.h ≡ false
unfolding new_log_handler
handler_differs = refl

update_log-panics_example :
    Option.map
      (λ (r : Running MemKeyStore ℕ ℕ (Assoc Text TableRoute)). handle r.log_handler (pos 4))
      updated.state
    ≡ some nil_pointer
update_log-panics_example =
    update_log-panics environment (some other_log) live updated (new_cache no_keys) updates
      other_log refl 5 refl running refl handler_differs (pos 4)

abbrev http : HttpServer
http = record { shutdown = none; force_close = none }

abbrev closed_or : MyServer → Result (MyServer × Option Error) → MyServer
closed_or s (ok (t, failed)) = t
closed_or s r = s

abbrev closed : MyServer
closed = closed_or live (close mem_key_store http live)

closes : close mem_key_store http live ≡ ok (closed, none)
unfolding close Cache.close stop Memory.close
closes = refl

close-final_example :
    (close mem_key_store http closed ≡ ok (closed, none))
    × (update_admin (λ id. false) (codes "bob") closed ≡ err server_closed)
    × (update_tls conf.tls closed ≡ closed_after (verify_tls conf.tls))
    × (update_policies [] closed ≡ closed_after (init_policies []))
    × ((update environment (some conf) closed).0 ≡ (
        verify_config (some conf) >>= λ verified. closed_after (init_policies verified.1.policies)))
    × ((start environment address (some conf) closed).0 ≡ (
        verify_config (some conf) >>= λ verified. closed_after (init_policies verified.1.policies)))
close-final_example =
    close-final mem_key_store http live closed none closes environment (λ id. false) (codes "bob")
      address conf.tls [] (some conf) mem_key_store http
