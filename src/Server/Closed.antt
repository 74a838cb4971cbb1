-- ===== src/Server/Closed.antt =====
-- A server of server.go after a call of Close.
use kes.Prelude.{◌≡◌, refl, Eq, Bool, true, Option, Text, arith, if◌then◌else◌}
use kes.Prelude.Maps.{Assoc}
use kes.Api.Errors.{Error, Result, ok, err, panic, plain, message, ◌>>=◌}
use kes.KeyStore.Interface.{KeyStore}
use kes.Server.Config.{TlsSettings, Config, verify_tls, verify_config}
use kes.Server.Setup.{PolicyConfig, init_policies}
use kes.Server.Lifecycle.{
  Server, check_running, check_new, update_admin, update_tls, update_policies,
}
use kes.Server.Start.{Environment, or_fail, update, start}
use kes.Server.Close.{HttpServer, close}

abbrev pub server_closed : Error
server_closed = plain (message "kes: server is closed")

-- The error that the server is closed, after the checks of the arguments.
abbrev pub closed_after : {X Y : Type 0} → Result X → Result Y
closed_after (ok x) = err server_closed
closed_after (err e) = err e
closed_after (panic why) = panic why

>>=-closed :
    {X Y : Type 0} (m : Result X) (k : X → Result Y)
    → ((x : X) → k x ≡ err server_closed)
    → (m >>= k) ≡ closed_after m
>>=-closed (ok x) k h = h x
>>=-closed (err e) k h = refl
>>=-closed (panic why) k h = refl

or_fail-closed :
    {X Y L : Type 0} (m : Result X) (k : X → Result Y × Option L) (n : X → Result Y)
    → ((x : X) → (k x).0 ≡ n x)
    → (or_fail m k).0 ≡ (m >>= n)
or_fail-closed (ok x) k n h = h x
or_fail-closed (err e) k n h = refl
or_fail-closed (panic why) k n h = refl

or_fail-ends :
    {X Y L : Type 0} (m : Result X) (k : X → Result Y × Option L)
    → ((x : X) → (k x).0 ≡ err server_closed)
    → (or_fail m k).0 ≡ closed_after m
or_fail-ends (ok x) k h = h x
or_fail-ends (err e) k h = refl
or_fail-ends (panic why) k h = refl

module _ {S T H A R : Type 0} ⦃h : Eq H⦄ ⦃a : Eq A⦄ where
  close-closed :
      (ks : KeyStore S) (http : HttpServer) (s t : Server S T H A R) (failed : Option Error)
      → close ks http s ≡ ok (t, failed)
      → (t.closed ≡ true) × (t.c_err ≡ failed)
  unfolding close
  close-closed ks http s t failed h = ground arith

  check_running-closed :
      (t : Server S T H A R) → t.closed ≡ true → check_running t ≡ err server_closed
  unfolding check_running
  check_running-closed t h = rw h refl

  check_new-closed : (t : Server S T H A R) → t.closed ≡ true → check_new t ≡ err server_closed
  unfolding check_new
  check_new-closed t h = rw h refl

  -- After a call of Close that returned, a second Close does nothing but return the error of the
  -- first, and each update and each start returns the error that the server is closed, unless its
  -- arguments fail a check that comes before.
  pub close-final :
      (ks : KeyStore S) (http : HttpServer) (s t : Server S T H A R) (failed : Option Error)
      → close ks http s ≡ ok (t, failed)
      → (v : Environment S H A R) (is_unknown : Text → Bool) (admin addr : Text)
        (conf : Option (TlsSettings T)) (policies : Assoc Text PolicyConfig)
        (config : Option (Config S T H A)) (again : KeyStore S) (other : HttpServer)
      → (close again other t ≡ ok (t, failed))
        × (update_admin is_unknown admin t
            ≡ err (
                if is_unknown admin
                then plain (message "kes: admin identity is empty")
                else server_closed))
        × (update_tls conf t ≡ closed_after (verify_tls conf))
        × (update_policies policies t ≡ closed_after (init_policies policies))
        × ((update v config t).0 ≡ (
            verify_config config >>= λ verified. closed_after (init_policies verified.1.policies)))
        × ((start v addr config t).0 ≡ (
            verify_config config >>= λ verified. closed_after (init_policies verified.1.policies)))
  unfolding update_admin update_tls update_policies update start close
  close-final ks http s t failed h v is_unknown admin addr conf policies config again other =
      let (closed, error) = close-closed ks http s t failed h in
      let running = check_running-closed t closed in
      let new = check_new-closed t closed in
      (
        rw (closed, error) refl,
        ground (arith, running),
        >>=-closed (verify_tls conf) _ (λ tls. rw running refl),
        >>=-closed (init_policies policies) _ (λ sets. rw running refl),
        or_fail-closed (verify_config config) _ _ (λ verified.
            or_fail-ends (init_policies verified.1.policies) _ (λ sets. rw running refl)),
        or_fail-closed (verify_config config) _ _
            (λ verified. or_fail-ends (init_policies verified.1.policies) _ (λ sets. rw new refl)),
      )
