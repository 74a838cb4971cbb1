-- ===== src/KeyStore/Vault/Connect.antt =====
-- internal/keystore/vault/vault.go and client.go: Connect, and the two ways to log in to Vault.
pub mod Logins
use kes.Prelude.{
  ℕ, ◌*◌, ◌^◌, Bool, true, false, not, ◌&&◌, ◌||◌, Option, none, some, [], ◌∷◌, ◌==◌, ℤ, pos,
  negsuc, Text, codes, text_beq, if◌then◌else◌, text_eq, nat_eq, arith,
}
use kes.Prelude.Maps.{contains}
use kes.Api.Errors.{Error, Result, ok, err, panic, plain, message, ◌>>=◌, ◌>>◌, require}
use kes.KeyStore.Remote.{Run, and_then, lift, failure}
use kes.KeyStore.Vault.{Library, Store, nil_pointer, api_v2}
use kes.KeyStore.Json.{text, Fields, field, end}
use kes.Conf.Backends.{VaultConfig}
use kes.Conf.File.{VaultAppRoleAuth, VaultKubernetesAuth, VaultTransit}

abbrev pub or_default : Text → Text → Text
or_default value t = if text_beq t [] then value else t

abbrev pub api_v1 : Text
api_v1 = codes "v1"

abbrev pub with_engine_app_role : Option VaultAppRoleAuth → Option VaultAppRoleAuth
with_engine_app_role none = none
with_engine_app_role (some a) = some (record a { engine = or_default (codes "approle") a.engine })

abbrev pub with_engine_k8s : Option VaultKubernetesAuth → Option VaultKubernetesAuth
with_engine_k8s none = none
with_engine_k8s (some k) = some (record k { engine = or_default (codes "kubernetes") k.engine })

abbrev pub with_engine_transit : Option VaultTransit → Option VaultTransit
with_engine_transit none = none
with_engine_transit (some t) = some (record t { engine = or_default (codes "transit") t.engine })

abbrev pub ping_default : ℤ → ℤ
ping_default (pos d) = if d == 0 then pos (15 * 10 ^ 9) else pos d
ping_default (negsuc d) = negsuc d

-- The defaults that Connect puts into its clone of the config.
unfoldable pub defaults : VaultConfig → VaultConfig
defaults c = record c {
  engine = or_default (codes "kv") c.engine;
  api_version = or_default api_v1 c.api_version;
  app_role = with_engine_app_role c.app_role;
  k8s = with_engine_k8s c.k8s;
  transit = with_engine_transit c.transit;
  status_ping_after = ping_default c.status_ping_after;
}

abbrev pub given : Text → Bool
given t = not (text_beq t [])

abbrev pub check_logins : Option VaultAppRoleAuth → Option VaultKubernetesAuth → Result (Unit {0})
check_logins (some a) (some k) = do
  require
      (not
        ((text_beq a.id [] || text_beq a.secret []) && (text_beq k.jwt [] || text_beq k.role [])))
      (plain (message "vault: no authentication method specified"))
  require (not ((given a.id || given a.secret) && (given k.jwt || given k.role))) (
      plain (
        message
          "vault: more than one authentication method specified: approle and kubernetes configuration is present"))
check_logins none k = ok tt
check_logins (some a) none = ok tt

abbrev pub check_transit : Option VaultTransit → Result (Unit {0})
check_transit none = ok tt
check_transit (some t) =
    require (given t.key_name) (plain (message "vault: transit key name is empty"))

-- The checks of Connect, after the defaults.
unfoldable pub check_config : VaultConfig → Result (Unit {0})
check_config c = do
  require (given c.endpoint) (plain (message "vault: endpoint is empty"))
  require (text_beq c.api_version api_v1 || text_beq c.api_version api_v2)
      (failure "vault: invalid engine API version '%s'" (c.api_version ∷ []))
  check_logins c.app_role c.k8s
  check_transit c.transit

pub data Login : Type 0 where
  with_app_role : VaultAppRoleAuth → Login
  with_k8s : VaultKubernetesAuth → Login

abbrev pub k8s_login : Option VaultKubernetesAuth → Option Login
k8s_login none = none
k8s_login (some k) = if given k.role || given k.jwt then some (with_k8s k) else none

-- The switch for `authenticate`, which is nil without a case that holds.
unfoldable pub login_of : Option VaultAppRoleAuth → Option VaultKubernetesAuth → Option Login
login_of none k = k8s_login k
login_of (some a) k = if given a.id || given a.secret then some (with_app_role a) else k8s_login k

-- What Connect uses of the SDK and of package os. `write` is Logical().Write of a client in a
-- namespace, or in that of the client itself, and yields the TokenID of the secret, if there is one.
pub record Session (S : Type 0) : Type 0 where
  -- os.Stat: whether there is a directory at the path
  pub stat : Text → Result Bool
  pub path_separator : ℕ
  pub read_file : Text → Result Text
  pub new_client : VaultConfig → Run S (Unit {0})
  pub write : Option Text → Text → Fields → Run S (Option (Result Text))

-- The namespace of a login: `/` is the root namespace.
abbrev pub namespace_of : Text → Option Text
namespace_of ns = if text_beq ns (codes "/") then some [] else if given ns then some ns else none

module _ (lib : Library) {S : Type 0} (sdk : Session S) where
  abbrev pub no_token : Error
  no_token = plain (message "vault: authentication failed: SDK returned no error but also no token")

  abbrev pub secret_of : S × Result (Option (Result Text)) → S × Result (Result Text)
  secret_of (s, ok none) = (s, err no_token)
  secret_of (s, ok (some token)) = (s, ok token)
  secret_of (s, err e) = (s, err e)
  secret_of (s, panic why) = (s, panic why)

  abbrev pub auth_path : Text → Text
  auth_path engine = lib.join (codes "auth" ∷ engine ∷ codes "login" ∷ [])

  -- A JWT with a path separator is the path of a file.
  abbrev pub jwt_of : Text → Result Text
  jwt_of jwt =
      if contains b'/' jwt || contains sdk.path_separator jwt then sdk.read_file jwt else ok jwt

  abbrev pub send_jwt : VaultKubernetesAuth → Result Text → Run S (Result Text)
  send_jwt k (ok jwt) s = secret_of (
      sdk.write (namespace_of k.namespace) (auth_path k.engine)
        (field (codes "role") (text k.role) (field (codes "jwt") (text jwt) end)) s)
  send_jwt k (err e) s = (s, err e)
  send_jwt k (panic why) s = (s, panic why)

  -- AuthenticateWithAppRole and AuthenticateWithK8S
  unfoldable pub authenticate : Login → Run S (Result Text)
  authenticate (with_app_role a) s = secret_of (
      sdk.write (namespace_of a.namespace) (auth_path a.engine)
        (field (codes "role_id") (text a.id) (field (codes "secret_id") (text a.secret) end)) s)
  authenticate (with_k8s k) s = send_jwt k (jwt_of k.jwt) s

  -- The call of a nil function panics.
  abbrev pub authenticated : Option Login → Run S (Result Text)
  authenticated none s = (s, nil_pointer)
  authenticated (some login) s = authenticate login s

  abbrev pub check_ca_path : Text → Result (Unit {0})
  check_ca_path path = if text_beq path [] then ok tt else (elim (sdk.stat path) [
    | ok directory ↦ ok tt
    | err e ↦ err (failure "vault: failed to open '%s': %v" (path ∷ lib.error_text e ∷ []))
    | panic why ↦ panic why
  ])

  -- What is left of Connect once the config is checked: the Store, and the token of its client.
  abbrev pub log_in : VaultConfig → Run S (Store × Text)
  log_in c s = and_then (sdk.new_client c s) (λ u s1.
      and_then (authenticated (login_of c.app_role c.k8s) s1) (λ secret s2.
        and_then (lift secret s2)
          (λ token s3. (s3, ok (record { connected = true; sealed = false; config = c }, token)))))

  unfoldable pub connect : VaultConfig → Run S (Store × Text)
  connect c s =
      and_then (lift (check_config (defaults c)) s)
        (λ u s1. and_then (lift (check_ca_path c.ca_path) s1) (λ v. log_in (defaults c)))
