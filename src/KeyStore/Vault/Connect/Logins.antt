-- ===== src/KeyStore/Vault/Connect/Logins.antt =====
-- Which configurations Connect of the Vault key store can log in with.
use kes.Prelude.{
  ap, Text, Bool, false, ◌≡◌, refl, true, Option, none, some, is_some, text_eq, arith,
}
use kes.Api.Errors.{Result, err, panic, ok}
use kes.KeyStore.Vault.{Library, nil_pointer}
use kes.Conf.Backends.{VaultConfig}
use kes.Conf.File.{vault_store, VaultKeyStore, VaultAppRoleAuth, VaultKubernetesAuth}
use kes.Conf.Connect.{vault_config_of}
use kes.Conf.Stores.Valid.{valid_vault, yml_to_key_store-valid}
use kes.Conf.Stores.{yml_to_key_store}
use kes.Conf.Sections.{KeyStoreSections}
use kes.Conf.Checks.{Os}
use kes.KeyStore.Json.{Fields}
use kes.KeyStore.Remote.{and_then}
use kes.KeyStore.Vault.Connect.{
  Login, authenticate, log_in, with_app_role, with_k8s, secret_of, send_jwt, authenticated, jwt_of,
  defaults, check_config, login_of, Session, connect, check_ca_path, with_engine_app_role,
  with_engine_k8s,
}

-- A key store of a configuration file that ymlToKeyStore accepts has a login for Connect, so that
-- Connect does not call a nil function.
pub login_of-valid_vault :
    (s : VaultKeyStore)
    → valid_vault s ≡ true
    → is_some (login_of (defaults (vault_config_of s)).app_role (defaults (vault_config_of s)).k8s)
      ≡ true
unfolding login_of defaults
login_of-valid_vault s h = ground arith

no_login-with_engine :
    (a : Option VaultAppRoleAuth) (k : Option VaultKubernetesAuth)
    → login_of a k ≡ none
    → login_of (with_engine_app_role a) (with_engine_k8s k) ≡ none
unfolding login_of
no_login-with_engine none none h = refl
no_login-with_engine none (some k) h = ground arith
no_login-with_engine (some a) none h = ground arith
no_login-with_engine (some a) (some k) h = ground arith

no_login-defaults :
    (c : VaultConfig)
    → login_of c.app_role c.k8s ≡ none
    → login_of (defaults c).app_role (defaults c).k8s ≡ none
unfolding defaults
no_login-defaults c h = no_login-with_engine c.app_role c.k8s h

-- Connect panics for a Config without any credentials, and for one with empty ones, where the rest
-- of the Config is right and the client can be made.
pub connect-panics :
    (lib : Library) {S : Type 0} (sdk : Session S) (c : VaultConfig) (s t : S)
    → check_config (defaults c) ≡ ok tt
    → check_ca_path lib sdk c.ca_path ≡ ok tt
    → sdk.new_client (defaults c) s ≡ (t, ok tt)
    → login_of c.app_role c.k8s ≡ none
    → connect lib sdk c s ≡ (t, nil_pointer)
unfolding connect
connect-panics lib sdk c s t checked ca made no_login =
    rw (checked, ca, made, no_login-defaults c no_login) refl

abbrev pub is_panic {ℓ} : {A : Type ℓ} → Result A → Bool
is_panic (panic why) = true
is_panic (err e) = false
is_panic (ok x) = false

-- No call of the SDK or of package os panics, and no token is one.
pub record Calm {S : Type 0} (sdk : Session S) : Type 0 where
  pub stat : (path : Text) → is_panic (sdk.stat path) ≡ false
  pub read_file : (path : Text) → is_panic (sdk.read_file path) ≡ false
  pub new_client : (c : VaultConfig) (s : S) → is_panic (sdk.new_client c s).1 ≡ false
  pub write :
      (ns : Option Text) (path : Text) (fields : Fields) (s : S)
      → is_panic (sdk.write ns path fields s).1 ≡ false
  pub token :
      (ns : Option Text) (path : Text) (fields : Fields) (s : S) (token : Result Text)
      → (sdk.write ns path fields s).1 ≡ ok (some token)
      → is_panic token ≡ false

module _ {S : Type 0} where
  and_then-calm :
      {A B : Type 0} (r : S × Result A) (k : A → S → S × Result B)
      → is_panic r.1 ≡ false
      → ((x : A) (s : S) → r ≡ (s, ok x) → is_panic (k x s).1 ≡ false)
      → is_panic (and_then r k).1 ≡ false
  and_then-calm (s, panic why) k h n = h
  and_then-calm (s, err e) k h n = refl
  and_then-calm (s, ok x) k h n = n x s refl

check_config-calm : (c : VaultConfig) → is_panic (check_config c) ≡ false
unfolding check_config
check_config-calm c = ground arith

module _ (lib : Library) {S : Type 0} (sdk : Session S) (law : Calm sdk) where
  -- The secret of a login, and its token.
  CalmToken : S × Result (Result Text) → Type 0
  CalmToken r =
      (is_panic r.1 ≡ false) × ((token : Result Text) → r.1 ≡ ok token → is_panic token ≡ false)

  secret_of-calm :
      (r : S × Result (Option (Result Text)))
      → is_panic r.1 ≡ false
      → ((token : Result Text) → r.1 ≡ ok (some token) → is_panic token ≡ false)
      → CalmToken (secret_of lib sdk r)
  unfolding CalmToken
  secret_of-calm (s, panic why) h t = (h, λ token q. absurd (cc))
  secret_of-calm (s, err e) h t = (refl, λ token q. absurd (cc))
  secret_of-calm (s, ok none) h t = (refl, λ token q. absurd (cc))
  secret_of-calm (s, ok (some token)) h t = (refl, λ other q. t other (ground arith))

  written-calm :
      (ns : Option Text) (path : Text) (fields : Fields) (s : S)
      → CalmToken (secret_of lib sdk (sdk.write ns path fields s))
  written-calm ns path fields s =
      secret_of-calm (sdk.write ns path fields s) (law.write ns path fields s)
        (law.token ns path fields s)

  send_jwt-calm :
      (k : VaultKubernetesAuth) (jwt : Result Text) (s : S)
      → is_panic jwt ≡ false
      → CalmToken (send_jwt lib sdk k jwt s)
  unfolding CalmToken
  send_jwt-calm k (ok jwt) s h = unfold CalmToken in written-calm _ _ _ s
  send_jwt-calm k (err e) s h = (refl, λ token q. absurd (cc))
  send_jwt-calm k (panic why) s h = absurd (cc)

  authenticated-calm :
      (login : Option Login) (s : S)
      → is_some login ≡ true
      → CalmToken (authenticated lib sdk login s)
  unfolding authenticate
  authenticated-calm none s h = absurd (cc)
  authenticated-calm (some (with_app_role a)) s h = written-calm _ _ _ s
  authenticated-calm (some (with_k8s k)) s h =
      send_jwt-calm k (jwt_of lib sdk k.jwt) s (ground (arith, law.read_file k.jwt))

  log_in-calm :
      (c : VaultConfig) (s : S)
      → is_some (login_of c.app_role c.k8s) ≡ true
      → is_panic (log_in lib sdk c s).1 ≡ false
  unfolding CalmToken
  log_in-calm c s h = and_then-calm (sdk.new_client c s) _ (law.new_client c s) (λ u t made.
      let calm = authenticated-calm (login_of c.app_role c.k8s) t h in
      and_then-calm (authenticated lib sdk (login_of c.app_role c.k8s) t) _ (calm.0)
        (λ secret t' got.
          and_then-calm (t', secret) _
            (calm.1 secret (ap (λ (r : S × Result (Result Text)). r.1) got))
            (λ token t'' taken. refl)))

  -- Connect does not panic for a Vault key store that ymlToKeyStore returns, where the calls of the
  -- SDK and of package os do not: it never calls a nil `authenticate`.
  pub connect-no_panic :
      (os : Os) (y : KeyStoreSections) (v : VaultKeyStore) (s : S)
      → yml_to_key_store os y ≡ ok (vault_store v)
      → is_panic (connect lib sdk (vault_config_of v) s).1 ≡ false
  unfolding connect
  connect-no_panic os y v s h =
      let c = vault_config_of v in
      let valid : valid_vault v ≡ true = yml_to_key_store-valid os y (vault_store v) h in
      and_then-calm (s, check_config (defaults c)) _ (check_config-calm (defaults c))
        (λ u t checked.
          and_then-calm (t, check_ca_path lib sdk c.ca_path) _ (ground (arith, law.stat c.ca_path))
            (λ w t' found. log_in-calm (defaults c) t' (login_of-valid_vault v valid)))
