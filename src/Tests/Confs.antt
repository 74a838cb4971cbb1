-- ===== src/Tests/Confs.antt =====
-- Configuration files: a key store in a directory, another with an Entrust section, and their checks.
use kes.Prelude.{
  ◌≡◌, refl, ◌↔◌, Bool, Option, true, ◌&&◌, none, some, [], ◌∷◌, pos, Text, codes, text_eq,
  text_beq, inr,
}
use kes.Api.Errors.{Result, ok, panic, Message, message}
use kes.Conf.Sections.{Env, KesSection, KeyStoreSections}
use kes.Conf.Yml.{YmlFile}
use kes.Conf.File.{KeyStore, fs_store, File}
use kes.Conf.Checks.{Os}
use kes.Conf.Vault.{read_fs}
use kes.Conf.Clouds.{read_key_control}
use kes.Conf.Stores.{read_section, yml_to_key_store}
use kes.Conf.Stores.Chosen.{configured, yml_to_key_store_iff}
use kes.Conf.Stores.Valid.{valid_store, yml_to_key_store-valid}
use kes.Conf.Texts.{to_upper, trim_left, trim_space}
use kes.Conf.Levels.{parse_upper, parse_log_level}
use kes.Conf.Server.{
  client_auth_of, check_paths, check_tls, check_cache, file_of, yml_to_server_config,
}
use kes.Conf.Server.Accepted.{is_ok, valid_file, expected_auth, yml_to_server_config-is_ok}
use kes.Conf.Backends.{Backends}
use kes.Conf.Connect.{connect}
use kes.Conf.Config.{Certificate, TlsRest, tls_config, config}
use kes.Conf.Config.Started.{verify_config-config}
use kes.Server.Config.{Config, verify_config}

abbrev read_from : {A : Type 0} → A → Env A
read_from x = record { variable = []; value = x }

abbrev empty : Env Text
empty = read_from []

abbrev os : Os
os = record { path_separator = b'/'; read_error = λ path. none }

abbrev no_stores : KeyStoreSections
no_stores = record {
  fs = none;
  encrypted_fs = none;
  kes = none;
  vault = none;
  fortanix = none;
  gemalto = none;
  gcp = none;
  aws = none;
  azure = none;
  entrust = none;
}

abbrev directory : KeyStoreSections
directory = record no_stores { fs = some (record { path = read_from (codes "/keys") }) }

abbrev directory_store : KeyStore
directory_store = fs_store (record { path = codes "/keys" })

abbrev no_credentials : KeyStoreSections
no_credentials = record no_stores {
  entrust = some (
      some (record {
        endpoint = read_from (codes "https://kc");
        vault_id = read_from (codes "vault");
        box_id = read_from (codes "box");
        login = none;
        ca_path = empty;
      }));
}

directory_is_read : yml_to_key_store os directory ≡ ok directory_store
unfolding yml_to_key_store read_section read_fs
directory_is_read = refl

abbrev with_kes : Option KesSection
with_kes = some (record {
  endpoint = read_from (codes "https://127.0.0.1:7373") ∷ [];
  enclave = empty;
  tls = record { certificate = empty; private_key = empty; ca_path = empty };
})

yml_to_key_store_iff_example :
    (yml_to_key_store os (record directory { kes = with_kes }) ≡ ok directory_store)
    ↔ (configured os directory ≡ ok directory_store ∷ [])
yml_to_key_store_iff_example = yml_to_key_store_iff os directory with_kes directory_store

yml_to_key_store-valid_example : valid_store directory_store ≡ true
yml_to_key_store-valid_example =
    yml_to_key_store-valid os directory directory_store directory_is_read

abbrev nil_login : Message
nil_login = message "runtime error: invalid memory address or nil pointer dereference"

no_credentials_panics : yml_to_key_store os no_credentials ≡ panic nil_login
unfolding yml_to_key_store read_section read_key_control
no_credentials_panics = refl

abbrev yml : YmlFile
yml = record {
  version = codes "v1";
  addr = read_from (codes "0.0.0.0:7373");
  admin_identity = read_from (codes "admin");
  tls = record {
    private_key = read_from (codes "server.key");
    certificate = read_from (codes "server.crt");
    ca_path = empty;
    password = empty;
    client_auth = read_from (codes "Off");
    proxy = record { identities = []; header_client_cert = empty };
  };
  policies =
      (
        codes "app",
        record {
          allow = codes "/v1/key/create/*" ∷ [];
          deny = [];
          identities = read_from (codes "alice") ∷ [];
        },
      )
      ∷ [];
  cache_expiry = record {
    any = read_from (pos 300);
    unused = read_from (pos 20);
    offline = read_from (pos 0);
  };
  api_paths =
      (
        codes "/v1/ready",
        record { insecure_skip_auth = read_from true; timeout = read_from (pos 5) },
      )
      ∷ [];
  log = record { error = empty; audit = read_from (codes "off") };
  keys = read_from (codes "my-key") ∷ [];
  key_store = directory;
}

abbrev is_unknown : Text → Bool
is_unknown id = text_beq id []

abbrev file : File
file = file_of yml (expected_auth yml) (pos 0) (pos 9) directory_store

yml_is_accepted : yml_to_server_config is_unknown os yml ≡ ok file
unfolding yml_to_server_config check_tls client_auth_of check_cache check_paths parse_log_level
    parse_upper to_upper trim_space trim_left yml_to_key_store read_section read_fs
yml_is_accepted = refl

yml_to_server_config-is_ok_example : is_ok (yml_to_server_config is_unknown os yml) ≡ (
    valid_file is_unknown yml
    && (is_ok (parse_log_level yml.log.error.value)
        && (is_ok (parse_log_level yml.log.audit.value)
            && is_ok (yml_to_key_store os yml.key_store))))
yml_to_server_config-is_ok_example = yml_to_server_config-is_ok is_unknown os yml

-- The key store is the path that has been connected to; every credential and certificate works.
abbrev backends : Backends Text (Unit {0}) (Unit {0})
backends = record {
  fs_new_store = λ path. ok path;
  efs_new_store = λ key cipher path. ok path;
  vault_connect = λ c. ok c.endpoint;
  fortanix_connect = λ c. ok c.endpoint;
  gemalto_connect = λ c. ok c.endpoint;
  gcp_connect = λ c. ok c.endpoint;
  aws_connect = λ c. ok c.addr;
  azure_connect = λ endpoint token. ok endpoint;
  entrust_login = λ c. ok c.endpoint;
  new_credential = λ c. inr tt;
  cert_pool_from_file = λ path. ok tt;
}

abbrev certificate : Text → Text → Text → Result Certificate
certificate cert key password =
    ok (record { leaf = some (record { dns_names = codes "localhost" ∷ []; ip_addresses = [] }) })

abbrev config_of :
    Result (Config Text (TlsRest (Unit {0})) (Unit {0}) (Unit {0}))
    → Config Text (TlsRest (Unit {0})) (Unit {0}) (Unit {0})
config_of (ok c) = c
config_of r = record {
  admin = [];
  tls = none;
  cache = none;
  policies = [];
  predefined_keys = [];
  keys = none;
  routes = [];
  error_log = none;
  audit_log = none;
}

abbrev server_config : Config Text (TlsRest (Unit {0})) (Unit {0}) (Unit {0})
server_config = config_of (config backends certificate file)

file_is_configured : config backends certificate file ≡ ok server_config
unfolding config tls_config connect
file_is_configured = refl

verify_config-config_example : is_ok (verify_config (some server_config)) ≡ true
verify_config-config_example =
    verify_config-config backends certificate is_unknown os yml file server_config yml_is_accepted
      file_is_configured
