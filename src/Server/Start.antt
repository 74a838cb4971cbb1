-- ===== src/Server/Start.antt =====
-- Start and Update of server.go, which make a new state from a Config.
use kes.Prelude.{ℕ, true, Option, none, some, [], if◌then◌else◌, Eq, Text, text_eq}
use kes.Prelude.Maps.{Assoc}
use kes.Api.Errors.{Result, ok, err, panic, ◌>>◌}
use kes.Auth.Requests.{Policy, IdentityEntry}
use kes.KeyStore.Interface.{KeyStore}
use kes.KeyStore.Cache.{KeyCache, CacheConfig, new_cache}
use kes.Server.Config.{RouteConfig, TlsSettings, Config, verify_config}
use kes.Server.Logs.{LogHandler, new_log_handler, with_error_log, AuditLogger, new_audit_logger}
use kes.Server.Setup.{init_policies}
use kes.Server.Keys.{Libraries, World}
use kes.Server.Predefined.{create_predefined_keys}
use kes.Server.Lifecycle.{Running, Server, deref, check_running, check_new}

-- conf.ErrorLog != nil && conf.ErrorLog != state.LogHandler.Handler()
abbrev pub updated_log : {H : Type 0} ⦃e : Eq H⦄ → Option H → LogHandler H → LogHandler H
updated_log none old = old
updated_log ⦃e⦄ (some h) old = if e.beq h old.h then old else with_error_log h old

abbrev pub updated_audit : {A : Type 0} → Option A → AuditLogger A → AuditLogger A
updated_audit none old = old
updated_audit (some h) old = record old { h = h }

abbrev pub or_default : {A : Type 0} → A → Option A → A
or_default d none = d
or_default d (some x) = x

-- A chain of calls that may leave a key cache behind.
abbrev pub or_fail {ℓ κ μ} :
    {X : Type ℓ} {Y : Type κ} {L : Type μ}
    → Result X
    → (X → Result Y × Option L)
    → Result Y × Option L
or_fail (ok x) k = k x
or_fail (err e) k = (err e, none)
or_fail (panic why) k = (panic why, none)

-- What follows the predefined keys. The second part is the new key cache, whose collectors run.
abbrev pub with_predefined {ℓ} :
    {S : Type 0} {Y : Type ℓ}
    → KeyCache S × Result (Unit {0})
    → (KeyCache S → Y)
    → Result Y × Option (KeyCache S)
with_predefined (keys, ok u) make = (ok (make keys), some keys)
with_predefined (keys, err e) make = (err e, some keys)
with_predefined (keys, panic why) make = (panic why, some keys)

-- What the methods take from outside; `defaults` are the handlers to standard error and output.
pub record Environment (S H A R : Type 0) : Type 0 where
  pub store : KeyStore S
  pub libraries : Libraries
  pub init_routes : Assoc Text RouteConfig → R
  pub default_error_log : H
  pub default_audit_log : A
  pub world : ℕ → World
  pub now : ℕ

module _ {S T H A R : Type 0} ⦃e : Eq H⦄ (v : Environment S H A R) where
  abbrev pub store_update :
      Server S T H A R
      → Running S H A R
      → Config S T H A
      → TlsSettings T
      → CacheConfig
      → Assoc Text Policy × Assoc Text IdentityEntry
      → KeyCache S
      → Server S T H A R
  store_update s old conf tls cache sets keys = record s {
    tls = some tls;
    state = some (record old {
      server = record old.server {
        admin = conf.admin;
        keys = keys;
        policies = sets.0;
        identities = sets.1;
      };
      cache_config = cache;
      log_handler = updated_log conf.error_log old.log_handler;
      audit_logger = updated_audit conf.audit_log old.audit_logger;
      routes = v.init_routes conf.routes;
    });
    handler = some (v.init_routes conf.routes);
  }

  -- Update, with the key cache of before, which the caller has to close.
  unfoldable pub update :
      Option (Config S T H A)
      → Server S T H A R
      → Result (Server S T H A R × KeyCache S) × Option (KeyCache S)
  update config s = or_fail (verify_config config) λ verified.
      or_fail (init_policies verified.1.policies) λ sets.
        or_fail (check_running s >> deref s.state) λ old. or_fail (deref verified.1.cache) λ cache.
          with_predefined
            (create_predefined_keys v.store v.libraries verified.1.admin v.world 0
              verified.1.predefined_keys (new_cache verified.0.keys))
            λ keys. (store_update s old verified.1 verified.0.tls cache sets keys, old.server.keys)

  abbrev pub store_start :
      Server S T H A R
      → Text
      → Config S T H A
      → TlsSettings T
      → CacheConfig
      → Assoc Text Policy × Assoc Text IdentityEntry
      → KeyCache S
      → Server S T H A R
  store_start s addr conf tls cache sets keys = record s {
    tls = some tls;
    state = some (record {
      addr = addr;
      server = record {
        start_time = v.now;
        admin = conf.admin;
        keys = keys;
        policies = sets.0;
        identities = sets.1;
        audit = [];
      };
      cache_config = cache;
      log_handler = new_log_handler (or_default v.default_error_log conf.error_log) s.err_level;
      audit_logger = new_audit_logger (or_default v.default_audit_log conf.audit_log) s.audit_level;
      routes = v.init_routes conf.routes;
    });
    handler = some (v.init_routes conf.routes);
    srv = true;
    started = true;
  }

  -- Start up to the call of Serve: verifyConfig and listen, on a listener with an address.
  unfoldable pub start :
      Text
      → Option (Config S T H A)
      → Server S T H A R
      → Result (Server S T H A R) × Option (KeyCache S)
  start addr config s = or_fail (verify_config config) λ verified.
      or_fail (init_policies verified.1.policies) λ sets. or_fail (check_new s) λ u.
        or_fail (deref verified.1.cache) λ cache.
          with_predefined
            (create_predefined_keys v.store v.libraries verified.1.admin v.world 0
              verified.1.predefined_keys (new_cache verified.0.keys))
            λ keys. store_start s addr verified.1 verified.0.tls cache sets keys
