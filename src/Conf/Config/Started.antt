-- ===== src/Conf/Config/Started.antt =====
-- From an accepted configuration file to a Config that a server accepts.
use kes.Prelude.{
  ◌≡◌, sym, ap, ◌∙◌, Bool, true, ◌||◌, some, List, [], ◌∷◌, ◌++◌, Text, text_eq, text_beq,
  text_beq_iff, arith,
}
use kes.Prelude.Maps.{contains}
use kes.Api.Errors.{Result, ok, >>=-eq-ok}
use kes.Conf.File.{File, TlsConfig}
use kes.Conf.Backends.{Backends}
use kes.Conf.Checks.{Os}
use kes.Conf.Yml.{YmlFile}
use kes.Conf.Server.{yml_to_server_config, file_of}
use kes.Conf.Server.Accepted.{is_ok, expected_auth, yml_to_server_config-file}
use kes.Conf.Connect.{connect, root_cas}
use kes.Conf.Config.{
  Certificate, TlsRest, tls_config, config, rule_set, if_some, reworded, check_leaf,
}
use kes.Server.Config.{TlsSettings, Config, verify_tls, verify_keys, verify_config}

contains-append :
    (p : Text) (set : List Text) (q : Text)
    → contains p (set ++ q ∷ []) ≡ (contains p set || text_beq q p)
contains-append p [] q = ground arith
contains-append p (s ∷ set) q = ground (arith, contains-append p set q)

-- The rules of a policy of the server are the patterns of the policy of the file.
pub contains-rule_set :
    (p : Text) (set patterns : List Text)
    → contains p (rule_set set patterns) ≡ (contains p set || contains p patterns)
unfolding rule_set
contains-rule_set p set [] = ground arith
contains-rule_set p set (q ∷ patterns) = ground (
  arith,
  contains-rule_set p set patterns,
  contains-rule_set p (set ++ q ∷ []) patterns,
  contains-append p set q,
  text_beq_iff q p,
)

module _ {S Pool Token : Type 0} (to : Backends S Pool Token)
    (certificate_from_file : Text → Text → Text → Result Certificate) where
  tls_config-ok :
      (tls : TlsConfig) (t : TlsSettings (TlsRest Pool))
      → tls_config to certificate_from_file tls ≡ ok t
      → (t.has_certificate ≡ true) × (t.client_auth ≡ tls.client_auth)
  unfolding tls_config
  tls_config-ok tls t h =
      let (certificate, _, h1) =
        >>=-eq-ok
          (reworded "failed to read TLS certificate: %v"
            (certificate_from_file tls.certificate tls.private_key tls.password))
          _ h in
      let (u, _, h2) = >>=-eq-ok (check_leaf certificate.leaf) _ h1 in
      let (cas, _, h3) =
        >>=-eq-ok (reworded "failed to read TLS CA certificates: %v" (root_cas to tls.ca_path)) _
          h2 in
      (ground arith, ground arith)

  -- A configuration file that is accepted, and whose certificate can be read and key store reached,
  -- gives a Config that a server accepts: verifyConfig refuses none of them.
  pub verify_config-config :
      {H A : Type 0} (is_unknown : Text → Bool) (os : Os) (y : YmlFile) (f : File)
      (c : Config S (TlsRest Pool) H A)
      → yml_to_server_config is_unknown os y ≡ ok f
      → config to certificate_from_file f ≡ ok c
      → is_ok (verify_config (some c)) ≡ true
  unfolding config verify_config verify_tls verify_keys
  verify_config-config {H} {A} is_unknown os y f c h g =
      let (err_level, audit_level, keystore, (_, (_, (_, same)))) =
        yml_to_server_config-file is_unknown os y f h in
      let file = file_of y (expected_auth y) err_level audit_level keystore in
      let made : config to certificate_from_file file ≡ ok c =
        ap (λ (x : File). config to certificate_from_file x) (sym same) ∙ g in
      let (tls, found, h1) =
        >>=-eq-ok (if_some (tls_config to certificate_from_file) file.tls) _ made in
      let (t, configured, h2) = >>=-eq-ok (tls_config to certificate_from_file _) _ found in
      let (keys, connected, h3) = >>=-eq-ok (if_some (connect to) file.key_store) _ h1 in
      let (k, _, h4) = >>=-eq-ok (connect to keystore) _ connected in
      let settings = tls_config-ok _ t configured in ground arith
