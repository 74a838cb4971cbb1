-- ===== src/Tests/Startups.antt =====
-- A key that is made when a server starts, and a route that its configuration opens.
use kes.Prelude.{
  ◌≡◌, refl, true, false, ◌||◌, some, [], ◌∷◌, pos, Text, codes, text_eq, text_beq, is_some, nat_eq,
  All, arith,
}
use kes.Prelude.Maps.{Assoc, lookup, put, Distinct}
use kes.Api.Errors.{Error, ok, err, errors_is, is_sdk, key_exists}
use kes.Cache.Cow
use kes.Cache.Cow.Views.{get-add}
use kes.Crypto.Keys.{
  KeyVersion, generate_secret_key, new_secret_key, generate_hmac_key, new_hmac_key,
  determine_secret_key_type, key_version_marshal,
}
use kes.Crypto.Encoding.{encode_key_version}
use kes.KeyStore.Memory
use kes.KeyStore.Memory.{MemKeyStore, mem_key_store}
use kes.KeyStore.Cache
use kes.KeyStore.Cache.{KeyCache, new_cache}
use kes.KeyStore.Cache.Contract.{mem_key_store-IsKeyStore}
use kes.Server.Config.{RouteConfig}
use kes.Server.Predefined.{tolerated, create_one, create_predefined_keys}
use kes.Server.Predefined.Held.{create_predefined_keys-held}
use kes.Server.Table.{
  TableRoute, apply_config, init_routes, version_path, self_describe_path, put_method, seconds,
  verify_identity, create_key, counted,
}
use kes.Server.Table.Configured.{is_verify, skips, init_routes-guarded}
use kes.Tests.Data.{mem_view, no_keys, my_key}
use kes.Tests.Handlers.{libraries}
use kes.Tests.Servers.{environment}

-- Without a limit, as every MemKeyStore is.
abbrev Unlimited : MemKeyStore → Type 0
Unlimited s = s.capacity ≡ pos 0

create_law :
    (s : MemKeyStore) (name b : Text) → Unlimited s → Unlimited (mem_key_store.create name b s).0
unfolding Memory.create Cow.add Cow.copy
create_law s name b u = ground arith

exists_law :
    (s : MemKeyStore) (name b : Text) (e : Error)
    → Unlimited s
    → (mem_key_store.create name b s).1 ≡ some e
    → errors_is (is_sdk key_exists) e ≡ true
    → is_some (mem_view s name) ≡ true
unfolding Memory.create
exists_law s name b e u h q = ground (arith, get-add name name b s)

encode_law :
    (k : KeyVersion) (e : Error)
    → encode_key_version libraries.codec k ≡ err e
    → tolerated e ≡ false
unfolding encode_key_version key_version_marshal kes.Crypto.Keys.secret_key_marshal
    kes.Crypto.Keys.hmac_key_marshal
encode_law k e h = ground arith

created :
    (create_predefined_keys mem_key_store libraries
      (codes "admin")
      environment.world
      0
      (my_key ∷ [])
      (new_cache no_keys)).1
    ≡ ok tt
unfolding create_predefined_keys create_one Cache.create Cache.create_encoded generate_secret_key
    new_secret_key generate_hmac_key new_hmac_key determine_secret_key_type encode_key_version
    key_version_marshal Memory.create new_cache kes.Crypto.Keys.secret_key_marshal
    kes.Crypto.Keys.hmac_key_marshal Cow.add
created = refl

unlimited : Unlimited (new_cache no_keys).store
unfolding new_cache
unlimited = refl

create_predefined_keys-held_example :
    All
      (λ (name : Text).
        is_some (
          mem_view
            (create_predefined_keys mem_key_store libraries
              (codes "admin")
              environment.world
              0
              (my_key ∷ [])
              (new_cache no_keys)).0.store
            name)
        ≡ true)
      (my_key ∷ [])
create_predefined_keys-held_example =
    create_predefined_keys-held mem_key_store mem_view mem_key_store-IsKeyStore Unlimited create_law
      exists_law libraries (codes "admin") encode_law environment.world 0 (my_key ∷ [])
      (new_cache no_keys) unlimited created

abbrev ready_open : Assoc Text RouteConfig
ready_open = (codes "/v1/ready", record { timeout = pos 0; insecure_skip_auth = true }) ∷ []

abbrev create_route : TableRoute
create_route = record {
  method = put_method;
  path = codes "/v1/key/create/";
  max_body = pos 0;
  timeout = seconds 15;
  auth = verify_identity;
  handler = create_key;
  measured = counted;
}

create_route_found :
    lookup (codes "/v1/key/create/") (init_routes (pos 1000000) ready_open) ≡ some create_route
unfolding init_routes apply_config lookup put
create_route_found = refl

one_path : Distinct ready_open
unfolding lookup
one_path = (refl, tt)

init_routes-guarded_example :
    (text_beq create_route.path (codes "/v1/key/create/") ≡ true)
    × ((is_verify create_route.auth
          || (text_beq (codes "/v1/key/create/") version_path
              || (text_beq (codes "/v1/key/create/") self_describe_path
                  || skips (lookup (codes "/v1/key/create/") ready_open))))
        ≡ true)
init_routes-guarded_example =
    init_routes-guarded (pos 1000000) ready_open (codes "/v1/key/create/") create_route one_path
      create_route_found
