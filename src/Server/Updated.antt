-- ===== src/Server/Updated.antt =====
-- The log handler of a server after an Update, and the keys of a configuration after a start or an
-- Update.
use kes.Prelude.{◌≡◌, refl, false, Option, some, Eq, arith, ℤ, text_eq}
use kes.Api.Errors.{ok}
use kes.KeyStore.Cache.{KeyCache}
use kes.Server.Config.{Config}
use kes.Server.Logs.{handle, with_error_log}
use kes.Server.Lifecycle.{Running, Server, check_running, nil_pointer}
use kes.Server.Start.{Environment, store_update, update, updated_log}
use kes.Server.Reach.{update-eq-ok}
use mathlib.Core.Option
use mathlib.Core.Path.{subst}

-- After an Update that has changed the error log, the log handler of the server's state panics on
-- every record, whatever its level: its own level is a nil Leveler.
pub update_log-panics :
    {S T H A R : Type 0} ⦃e : Eq H⦄ (v : Environment S H A R) (config : Option (Config S T H A))
    (s t : Server S T H A R) (old : KeyCache S)
    → (update v config s).0 ≡ ok (t, old)
    → (c : Config S T H A) → config ≡ some c
    → (h : H) → c.error_log ≡ some h
    → (r : Running S H A R) → s.state ≡ some r
    → e.beq h r.log_handler.h ≡ false
    → (level : ℤ)
    → Option.map (λ (r' : Running S H A R). handle r'.log_handler level) t.state ≡ some nil_pointer
unfolding check_running handle with_error_log
update_log-panics {S} {T} {H} {A} {R} v config s t old eq c hc h hl r hs differs level =
    let (c', tls, before, cache, sets, keys, (same, (running, (made, _)))) =
      update-eq-ok v config s t old eq in
    let configured : c' ≡ c = ground arith in
    let current : before ≡ r = ground arith in
    let logged : updated_log c'.error_log before.log_handler ≡ with_error_log h r.log_handler =
      ground arith in
    let shown : Option.map (λ (r' : Running S H A R). handle r'.log_handler level)
          (store_update v s before c' tls cache sets keys).state
        ≡ some nil_pointer =
      rw logged refl in
    subst
      (λ (x : Server S T H A R).
        Option.map (λ (r' : Running S H A R). handle r'.log_handler level) x.state
        ≡ some nil_pointer)
      made shown
