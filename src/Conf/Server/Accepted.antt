-- ===== src/Conf/Server/Accepted.antt =====
-- Which configuration files ymlToServerConfig of kesconf/config.go accepts, against one test of the
-- decoded file that reads no loop of the function.
use kes.Conf.Checks.{Os}
use kes.Conf.Stores.{yml_to_key_store}
use kes.Conf.Levels.{parse_log_level}
use kes.Prelude.{
  ◌≡◌, refl, Bool, true, false, not, ◌&&◌, ◌||◌, List, [], ◌∷◌, if◌then◌else◌, every, is_negative,
  Text, codes, text_beq, text_beq_iff, text_eq, arith, ◌⊎◌, inl, inr, ℤ,
}
use kes.Prelude.Maps.{Assoc, contains}
use kes.Api.Errors.{Result, ok, err, panic, ◌>>◌, >>=-eq-ok}
use kes.Conf.Yml.{YmlPolicy, YmlPath, YmlFile}
use kes.Conf.File.{
  ClientAuthType, verify_client_cert_if_given, request_client_cert, require_and_verify_client_cert,
  require_any_client_cert, File, KeyStore,
}
use kes.Conf.Clouds.{values}
use kes.Conf.Texts.{to_lower}
use kes.Conf.Server.{
  check_proxies, check_proxy, check_identities, check_policies, relax, check_paths, check_timeouts,
  check_keys, check_tls, client_auth_of, check_cache, yml_to_server_config, file_of,
}

abbrev pub is_ok {ℓ} : {A : Type ℓ} → Result A → Bool
is_ok (panic why) = false
is_ok (err e) = false
is_ok (ok x) = true

Result-cases {ℓ} : {A : Type ℓ} (m : Result A) → ((x : A) × (m ≡ ok x)) ⊎ (is_ok m ≡ false)
Result-cases (panic why) = inr refl
Result-cases (err e) = inr refl
Result-cases (ok x) = inl (x, refl)

-- tls.auth is empty, on or off.
abbrev pub valid_auth : Text → Bool
valid_auth auth =
    let v = to_lower auth in text_beq v [] || (text_beq v (codes "on") || text_beq v (codes "off"))

abbrev pub valid_policy : Text → List Text → Text × YmlPolicy → Bool
valid_policy admin proxies (name, policy) =
    every (λ (id : Text). not (text_beq id admin) && not (contains id proxies))
      (values policy.identities)

abbrev pub valid_path : Text × YmlPath → Bool
valid_path (path, api) = not (is_negative api.timeout.value)

abbrev pub skips_auth : Assoc Text YmlPath → Bool
skips_auth [] = false
skips_auth ((path, api) ∷ paths) = api.insecure_skip_auth.value || skips_auth paths

-- No text is there twice.
abbrev pub distinct : List Text → Bool
distinct [] = true
distinct (key ∷ keys) = not (contains key keys) && distinct keys

check_proxies-is_ok :
    (admin : Text) (proxies : List Text)
    → is_ok (check_proxies admin proxies) ≡ not (contains admin proxies)
check_proxies-is_ok admin [] = refl
check_proxies-is_ok admin (proxy ∷ proxies) = ground (arith, check_proxies-is_ok admin proxies)

check_proxy-is_ok :
    (name identity : Text) (proxies : List Text)
    → is_ok (check_proxy name identity proxies) ≡ not (contains identity proxies)
check_proxy-is_ok name identity [] = refl
check_proxy-is_ok name identity (proxy ∷ proxies) = ground (
  arith,
  text_beq_iff identity proxy,
  text_beq_iff proxy identity,
  check_proxy-is_ok name identity proxies,
)

check_identities-is_ok :
    (admin : Text) (proxies : List Text) (name : Text) (identities : List Text)
    → is_ok (check_identities admin proxies name identities)
      ≡ every (λ (id : Text). not (text_beq id admin) && not (contains id proxies)) identities
check_identities-is_ok admin proxies name [] = refl
check_identities-is_ok admin proxies name (id ∷ identities) =
    ground (
      arith,
      check_proxy-is_ok name id proxies,
      check_identities-is_ok admin proxies name identities,
    )

check_policies-is_ok :
    (admin : Text) (proxies : List Text) (policies : Assoc Text YmlPolicy)
    → is_ok (check_policies admin proxies policies) ≡ every (valid_policy admin proxies) policies
check_policies-is_ok admin proxies [] = refl
check_policies-is_ok admin proxies ((name, policy) ∷ policies) = ground (
  arith,
  check_identities-is_ok admin proxies name (values policy.identities),
  check_policies-is_ok admin proxies policies,
)

check_timeouts-is_ok :
    (paths : Assoc Text YmlPath) → is_ok (check_timeouts paths) ≡ every valid_path paths
check_timeouts-is_ok [] = refl
check_timeouts-is_ok ((path, api) ∷ paths) = ground (arith, check_timeouts-is_ok paths)

abbrev relaxed : ClientAuthType → Bool → ClientAuthType
relaxed auth skips = if skips then relax auth else auth

check_paths-eq :
    (auth : ClientAuthType) (paths : Assoc Text YmlPath)
    → check_paths auth paths ≡ (check_timeouts paths >> ok (relaxed auth (skips_auth paths)))
unfolding check_paths
check_paths-eq auth [] = refl
check_paths-eq auth ((path, api) ∷ paths) =
    ground (arith, check_paths-eq (if api.insecure_skip_auth.value then relax auth else auth) paths)

abbrev apart : List Text → List Text → Bool
apart names keys = every (λ (k : Text). not (contains k names)) keys

apart-eq :
    (key : Text) (names keys : List Text)
    → apart (key ∷ names) keys ≡ (not (contains key keys) && apart names keys)
apart-eq key names [] = refl
apart-eq key names (k ∷ keys) =
    ground (arith, text_beq_iff key k, text_beq_iff k key, apart-eq key names keys)

check_keys-is_ok :
    (names keys : List Text) → is_ok (check_keys names keys) ≡ (distinct keys && apart names keys)
check_keys-is_ok names [] = refl
check_keys-is_ok names (key ∷ keys) =
    ground (arith, check_keys-is_ok (key ∷ names) keys, apart-eq key names keys)

apart-none : (keys : List Text) → apart [] keys ≡ true
apart-none [] = refl
apart-none (key ∷ keys) = apart-none keys

-- The client authentication of the file's server.
abbrev pub expected_auth : YmlFile → ClientAuthType
expected_auth y =
    let verify = text_beq (to_lower y.tls.client_auth.value) (codes "on") in
    if skips_auth y.api_paths
    then (if verify then verify_client_cert_if_given else request_client_cert)
    else (if verify then require_and_verify_client_cert else require_any_client_cert)

abbrev pub valid_basics : (Text → Bool) → YmlFile → Bool
valid_basics is_unknown y =
    (text_beq y.version [] || text_beq y.version (codes "v1"))
    && (not (is_unknown y.admin_identity.value)
        && (not (text_beq y.tls.private_key.value [])
            && (not (text_beq y.tls.certificate.value []) && valid_auth y.tls.client_auth.value)))

abbrev pub valid_cache : YmlFile → Bool
valid_cache y =
    not (is_negative y.cache_expiry.any.value)
    && (not (is_negative y.cache_expiry.unused.value)
        && not (is_negative y.cache_expiry.offline.value))

-- The identities have one role each, and no number or name is wrong.
abbrev pub valid_file : (Text → Bool) → YmlFile → Bool
valid_file is_unknown y =
    let admin = y.admin_identity.value in
    let proxies = values y.tls.proxy.identities in
    valid_basics is_unknown y
    && (not (contains admin proxies)
        && (every (valid_policy admin proxies) y.policies
            && (valid_cache y && (every valid_path y.api_paths && distinct (values y.keys)))))

check_tls-eq :
    (is_unknown : Text → Bool) (y : YmlFile)
    → is_ok (check_tls is_unknown y) ≡ valid_basics is_unknown y
unfolding check_tls client_auth_of
check_tls-eq is_unknown y = ground arith

check_tls-auth :
    (is_unknown : Text → Bool) (y : YmlFile) (auth : ClientAuthType)
    → check_tls is_unknown y ≡ ok auth
    → relaxed auth (skips_auth y.api_paths) ≡ expected_auth y
unfolding check_tls client_auth_of
check_tls-auth is_unknown y auth h = ground arith

check_cache-is_ok : (y : YmlFile) → is_ok (check_cache y) ≡ valid_cache y
unfolding check_cache
check_cache-is_ok y = ground arith

-- The function returns a file exactly where the decoded file passes the test, both log levels can be
-- parsed and the key store can be read.
pub yml_to_server_config-is_ok :
    (is_unknown : Text → Bool) (os : Os) (y : YmlFile)
    → is_ok (yml_to_server_config is_unknown os y) ≡ (
        valid_file is_unknown y
        && (is_ok (parse_log_level y.log.error.value)
            && (is_ok (parse_log_level y.log.audit.value)
                && is_ok (yml_to_key_store os y.key_store))))
unfolding yml_to_server_config
yml_to_server_config-is_ok is_unknown os y =
    let admin = y.admin_identity.value in
    let proxies = values y.tls.proxy.identities in
    let tls = check_tls-eq is_unknown y in
    let proxied = check_proxies-is_ok admin proxies in
    let assigned = check_policies-is_ok admin proxies y.policies in
    let cached = check_cache-is_ok y in
    let timed = check_timeouts-is_ok y.api_paths in
    let named = check_keys-is_ok [] (values y.keys) in
    let fresh = apart-none (values y.keys) in
    elim (Result-cases (check_tls is_unknown y)) [
      | inl (auth, h) ↦ ground (arith, check_paths-eq auth y.api_paths)
      | inr h ↦ ground arith
    ]

-- The file that is returned has what the decoded file says, with the client authentication that
-- tls.auth and the APIs without authentication call for.
pub yml_to_server_config-file :
    (is_unknown : Text → Bool) (os : Os) (y : YmlFile) (f : File)
    → yml_to_server_config is_unknown os y ≡ ok f
    → (err_level : ℤ) × (audit_level : ℤ) × (keystore : KeyStore) × ((parse_log_level
            y.log.error.value
          ≡ ok err_level)
        × ((parse_log_level y.log.audit.value ≡ ok audit_level)
            × ((yml_to_key_store os y.key_store ≡ ok keystore)
                × (f ≡ file_of y (expected_auth y) err_level audit_level keystore))))
unfolding yml_to_server_config
yml_to_server_config-file is_unknown os y f h =
    let (auth, tls, h1) = >>=-eq-ok (check_tls is_unknown y) _ h in
    let (u1, proxied, h2) =
      >>=-eq-ok (check_proxies y.admin_identity.value (values y.tls.proxy.identities)) _ h1 in
    let (u2, assigned, h3) =
      >>=-eq-ok (check_policies y.admin_identity.value (values y.tls.proxy.identities) y.policies) _
        h2 in
    let (u3, cached, h4) = >>=-eq-ok (check_cache y) _ h3 in
    let (err_level, errors, h5) = >>=-eq-ok (parse_log_level y.log.error.value) _ h4 in
    let (audit_level, audits, h6) = >>=-eq-ok (parse_log_level y.log.audit.value) _ h5 in
    let (relaxed_auth, paths, h7) = >>=-eq-ok (check_paths auth y.api_paths) _ h6 in
    let (u4, named, h8) = >>=-eq-ok (check_keys [] (values y.keys)) _ h7 in
    let (keystore, stores, h9) = >>=-eq-ok (yml_to_key_store os y.key_store) _ h8 in
    let (u5, timed, h10) = >>=-eq-ok (check_timeouts y.api_paths) _ h9 in
    let same = check_tls-auth is_unknown y auth tls in
    let relaxed_same = check_paths-eq auth y.api_paths in
    (err_level, audit_level, keystore, (errors, (audits, (stores, ground arith))))
