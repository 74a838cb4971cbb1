-- ===== src/Conf/Config.antt =====
-- The methods TLSConfig and Config of File in kesconf/file.go, and ReadFrom.
pub mod Started
use kes.Prelude.{
  Bool, true, false, not, ◌&&◌, Option, none, some, List, [], ◌∷◌, ◌++◌, map, if◌then◌else◌, Text,
  codes, text_beq, text_eq, arith,
}
use mathlib.Core.Option
use kes.Prelude.Maps.{Assoc, contains}
use kes.Api.Errors.{Result, ok, err, panic, plain, message, ◌>>=◌, ◌>>◌, require}
use kes.Conf.File.{TlsConfig, CacheConfig, ApiPathConfig, Policy, File}
use kes.Conf.Backends.{Backends}
use kes.Conf.Connect.{root_cas, connect}
use kes.Conf.Checks.{Os}
use kes.Conf.Yml.{YmlFile}
use kes.Conf.Server.{yml_to_server_config, refuse_with}
use kes.Conf.Version.{Node, find_version}
use kes.Server.Config.{RouteConfig, TlsSettings, Config}
use kes.Server.Setup.{PolicyConfig}
use kes.KeyStore.Cache

-- A tls.Certificate, whose leaf may be nil.
pub record Leaf : Type 0 where
  pub dns_names : List Text
  pub ip_addresses : List Text

pub record Certificate : Type 0 where
  pub leaf : Option Leaf

-- The fields of the tls.Config that are not in TlsSettings: the certificate, and the pool for both
-- RootCAs and ClientCAs. MinVersion and NextProtos are constants.
pub record TlsRest (Pool : Type 0) : Type 0 where
  pub certificate : Certificate
  pub cas : Option Pool

abbrev pub is_nil {ℓ} : {X : Type ℓ} → List X → Bool
is_nil [] = true
is_nil (x ∷ xs) = false

-- A certificate with a leaf needs a DNS name or an IP address.
abbrev pub check_leaf : Option Leaf → Result (Unit {0})
check_leaf none = ok tt
check_leaf (some leaf) = require (not (is_nil leaf.dns_names && is_nil leaf.ip_addresses)) (
    plain (
      message "invalid TLS certificate: certificate does not contain any DNS or IP address as SAN"))

-- fmt.Errorf(format, err), whose text is left out; a panic goes on.
abbrev pub reworded {ℓ} : {X : Type ℓ} → Prim.Native.String.String → Result X → Result X
reworded format (ok x) = ok x
reworded format (err e) = err (plain (message format))
reworded format (panic why) = panic why

-- The keys of a map[string]kes.Rule that are set in the order of the list.
unfoldable pub rule_set : List Text → List Text → List Text
rule_set set [] = set
rule_set set (pattern ∷ patterns) =
    rule_set (if contains pattern set then set else set ++ pattern ∷ []) patterns

abbrev pub policy_config_of : Policy → PolicyConfig
policy_config_of p = record {
  allow = rule_set [] p.allow;
  deny = rule_set [] p.deny;
  identities = p.identities;
}

abbrev pub policy_configs_of : Assoc Text Policy → Assoc Text PolicyConfig
policy_configs_of [] = []
policy_configs_of ((name, p) ∷ policies) = (name, policy_config_of p) ∷ policy_configs_of policies

abbrev pub routes_of : Assoc Text ApiPathConfig → Assoc Text RouteConfig
routes_of [] = []
routes_of ((path, c) ∷ paths) =
    (path, record { timeout = c.timeout; insecure_skip_auth = c.insecure_skip_auth })
    ∷ routes_of paths

abbrev pub or_no_routes : Option (Assoc Text ApiPathConfig) → Assoc Text RouteConfig
or_no_routes none = []
or_no_routes (some paths) = routes_of paths

abbrev pub cache_config_of : CacheConfig → Cache.CacheConfig
cache_config_of c = record {
  expiry = c.expiry;
  expiry_unused = c.expiry_unused;
  expiry_offline = c.expiry_offline;
}

abbrev pub if_some {ℓ κ} : {X : Type ℓ} {Y : Type κ} → (X → Result Y) → Option X → Result (Option Y)
if_some f none = ok none
if_some f (some x) = f x >>= (λ y. ok (some y))

module _ {S Pool Token : Type 0} (to : Backends S Pool Token)
    (certificate_from_file : Text → Text → Text → Result Certificate) where
  unfoldable pub tls_config : TlsConfig → Result (TlsSettings (TlsRest Pool))
  tls_config tls = do
    certificate ←
        reworded "failed to read TLS certificate: %v"
          (certificate_from_file tls.certificate tls.private_key tls.password)
    check_leaf certificate.leaf
    cas ← reworded "failed to read TLS CA certificates: %v" (root_cas to tls.ca_path)
    ok (record {
      has_certificate = true;
      client_auth = tls.client_auth;
      settings = record { certificate = certificate; cas = cas };
    })

  -- Config; it leaves Config.ErrorLog and Config.AuditLog nil.
  unfoldable pub config : {H A : Type 0} → File → Result (Config S (TlsRest Pool) H A)
  config f = do
    tls ← if_some tls_config f.tls
    keys ← if_some (connect to) f.key_store
    ok (record {
      admin = f.admin;
      tls = tls;
      cache = Option.map cache_config_of f.cache;
      policies = policy_configs_of f.policies;
      predefined_keys = f.keys;
      keys = keys;
      routes = or_no_routes f.api_paths;
      error_log = none;
      audit_log = none;
    })

-- ReadFrom, after the first document of the input has been decoded to a node; `decode` is the
-- decoding of the node to a ymlFile.
unfoldable pub read_node : (Text → Bool) → Os → (Node → Result YmlFile) → Node → Result File
read_node is_unknown os decode n = do
  version ← find_version (some n)
  refuse_with (not (text_beq version []) && not (text_beq version (codes "v1")))
      "edge: invalid server config version '%s'" (version ∷ [])
  y ← decode n
  yml_to_server_config is_unknown os y
