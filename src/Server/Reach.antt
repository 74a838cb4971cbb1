-- ===== src/Server/Reach.antt =====
-- The servers that calls of the methods of Server in server.go can make of the zero value, and what
-- holds of all of them.
use kes.Auth.Requests.{Policy, IdentityEntry}
use mathlib.Core.Path.{subst}
use kes.Prelude.{◌≡◌, refl, ◌≢◌, Bool, Option, none, some, is_some, Eq, Text, arith, ap}
use kes.Prelude.Maps.{Assoc}
use kes.Api.Errors.{Error, Result, ok, err, panic, Message, ◌>>◌}
use kes.KeyStore.Interface.{KeyStore}
use kes.KeyStore.Cache.{KeyCache, new_cache, CacheConfig}
use kes.Server.State.{ServerState}
use kes.Server.Config.{TlsSettings, Config, verify_tls, verify_config}
use kes.Server.Setup.{PolicyConfig, init_policies}
use kes.Server.Lifecycle.{
  Running, Server, new_server, deref, check_running, update_admin, update_tls, update_policies,
  check_new,
}
use kes.Server.Predefined.{create_predefined_keys}
use kes.Server.Start.{Environment, or_fail, with_predefined, update, start, store_update}
use kes.Server.Close.{HttpServer, close}

pub with_predefined-ok :
    {S Y : Type 0} (p : KeyCache S × Result (Unit {0})) (make : KeyCache S → Y) (y : Y)
    → (with_predefined p make).0 ≡ ok y
    → make p.0 ≡ y
with_predefined-ok (keys, ok u) make y h = ground arith
with_predefined-ok (keys, err e) make y h = absurd (ground arith)
with_predefined-ok (keys, panic why) make y h = absurd (ground arith)

pub or_fail-ok :
    {X Y L : Type 0} (m : Result X) (k : X → Result Y × Option L) (y : Y)
    → (or_fail m k).0 ≡ ok y
    → (x : X) × ((m ≡ ok x) × ((k x).0 ≡ ok y))
or_fail-ok (ok x) k y h = (x, (refl, h))
or_fail-ok (err e) k y h = absurd (ground arith)
or_fail-ok (panic why) k y h = absurd (ground arith)

module _ {S T H A R : Type 0} ⦃e : Eq H⦄ where
  -- A call that succeeds, or a request that is handled while the server runs.
  pub data Step : Server S T H A R → Server S T H A R → Type 1 where
    step_update_admin :
        {s t : Server S T H A R} (is_unknown : Text → Bool) (admin : Text)
        → update_admin is_unknown admin s ≡ ok t
        → Step s t
    step_update_tls :
        {s t : Server S T H A R} (conf : Option (TlsSettings T))
        → update_tls conf s ≡ ok t
        → Step s t
    step_update_policies :
        {s t : Server S T H A R} (policies : Assoc Text PolicyConfig)
        → update_policies policies s ≡ ok t
        → Step s t
    step_update :
        {s t : Server S T H A R} (v : Environment S H A R) (config : Option (Config S T H A))
        (old : KeyCache S)
        → (update v config s).0 ≡ ok (t, old)
        → Step s t
    step_start :
        {s t : Server S T H A R} (v : Environment S H A R) (addr : Text)
        (config : Option (Config S T H A))
        → (start v addr config s).0 ≡ ok t
        → Step s t
    step_close :
        {s t : Server S T H A R} (ks : KeyStore S) (http : HttpServer) (failed : Option Error)
        → close ks http s ≡ ok (t, failed)
        → Step s t
    step_handle :
        {s : Server S T H A R} (r : Running S H A R) (st : ServerState S)
        → s.state ≡ some r
        → Step s (record s { state = some (record r { server = st }) })

  pub data Reach : Server S T H A R → Type 1 where
    unused : Reach new_server
    later : {s t : Server S T H A R} → Reach s → Step s t → Reach t

  -- A server has a state, a TLS configuration and an http.Server from its start on, and its mux is
  -- made of the routes in its state.
  pub record Inv (s : Server S T H A R) : Type 0 where
    pub served : s.srv ≡ s.started
    pub stated : is_some s.state ≡ s.started
    pub secured : is_some s.tls ≡ s.started
    pub routed : s.handler ≡ elim s.state [ none ↦ none | some r ↦ some r.routes ]

  -- An Update that succeeds has passed its checks and has stored what it has read.
  pub update-eq-ok :
      (v : Environment S H A R) (config : Option (Config S T H A)) (s t : Server S T H A R)
      (old : KeyCache S)
      → (update v config s).0 ≡ ok (t, old)
      → (c : Config S T H A) × (tls : TlsSettings T) × (before : Running S H A R)
        × (cache : CacheConfig) × (sets : Assoc Text Policy × Assoc Text IdentityEntry)
        × (keys : KeyCache S) × ((config ≡ some c)
            × (((check_running s >> deref s.state) ≡ ok before)
                × ((store_update v s before c tls cache sets keys ≡ t)
                    × (before.server.keys ≡ old))))
  unfolding update verify_config
  update-eq-ok v config s t old h =
      let (verified, (same, h1)) = or_fail-ok (verify_config config) _ _ h in
      let (sets, (_, h2)) = or_fail-ok (init_policies verified.1.policies) _ _ h1 in
      let (before, (running, h3)) = or_fail-ok (check_running s >> deref s.state) _ _ h2 in
      let (cache, (_, h4)) = or_fail-ok (deref verified.1.cache) _ _ h3 in
      let p =
        create_predefined_keys v.store v.libraries verified.1.admin v.world 0
          verified.1.predefined_keys (new_cache verified.0.keys) in
      let made = with_predefined-ok p _ _ h4 in
      (
        verified.1,
        verified.0.tls,
        before,
        cache,
        sets,
        p.0,
        (
          ground arith,
          (
            running,
            (
              ap (λ (x : Server S T H A R × KeyCache S). x.0) made,
              ap (λ (x : Server S T H A R × KeyCache S). x.1) made,
            ),
          ),
        ),
      )

  Step-Inv : {s t : Server S T H A R} → Step s t → Inv s → Inv t
  unfolding check_running update_admin update_tls update_policies update start close
  Step-Inv {s} {t} (step_update_admin is_unknown admin h) inv = record {
    served = ground arith;
    stated = ground arith;
    secured = ground arith;
    routed = ground arith;
  }
  Step-Inv {s} {t} (step_update_tls conf h) inv = record {
    served = ground arith;
    stated = ground arith;
    secured = ground arith;
    routed = ground arith;
  }
  Step-Inv {s} {t} (step_update_policies policies h) inv = record {
    served = ground arith;
    stated = ground arith;
    secured = ground arith;
    routed = ground arith;
  }
  Step-Inv {s} {t} (step_update v config old h) inv =
      let (c, tls, before, cache, sets, keys, (_, (running, (made, _)))) =
        update-eq-ok v config s t old h in
      subst (λ (x : Server S T H A R). Inv x) made
        (record {
          served = ground arith;
          stated = ground arith;
          secured = ground arith;
          routed = refl;
        })
  Step-Inv {s} {t} (step_start v addr config h) inv =
      let (verified, (_, h1)) = or_fail-ok (verify_config config) _ _ h in
      let (sets, (_, h2)) = or_fail-ok (init_policies verified.1.policies) _ _ h1 in
      let (u, (new, h3)) = or_fail-ok (check_new s) _ _ h2 in
      let (cache, (_, h4)) = or_fail-ok (deref verified.1.cache) _ _ h3 in
      let made =
        with_predefined-ok
          (create_predefined_keys v.store v.libraries verified.1.admin v.world 0
            verified.1.predefined_keys (new_cache verified.0.keys))
          _ _ h4 in
      subst (λ (x : Server S T H A R). Inv x) made
        (record { served = refl; stated = refl; secured = refl; routed = refl })
  Step-Inv {s} {t} (step_close ks http failed h) inv = record {
    served = ground arith;
    stated = ground arith;
    secured = ground arith;
    routed = ground arith;
  }
  Step-Inv {s} (step_handle r st h) inv = record {
    served = ground arith;
    stated = ground arith;
    secured = ground arith;
    routed = ground arith;
  }

  Reach-Inv : {s : Server S T H A R} → Reach s → Inv s
  Reach-Inv unused = record { served = refl; stated = refl; secured = refl; routed = refl }
  Reach-Inv (later r m) = Step-Inv m (Reach-Inv r)

  -- In every server that calls can make, the mux that requests go to is made of the routes in the
  -- server's state, and the server has a state, a TLS configuration and an http.Server exactly once it
  -- has been started, also after it has been closed.
  pub Reach-parts :
      (s : Server S T H A R)
      → Reach s
      → (s.handler ≡ elim s.state [ none ↦ none | some r ↦ some r.routes ])
        × ((is_some s.state ≡ s.started) × ((is_some s.tls ≡ s.started) × (s.srv ≡ s.started)))
  Reach-parts s r = let inv = Reach-Inv r in (inv.routed, (inv.stated, (inv.secured, inv.served)))

  -- No nil pointer is read: in every server that calls can make, UpdateAdmin, UpdateTLS and Close
  -- return.
  pub Reach-no_panic :
      (s : Server S T H A R)
      → Reach s
      → (is_unknown : Text → Bool) (admin : Text) (conf : Option (TlsSettings T)) (ks : KeyStore S)
        (http : HttpServer) (why : Message)
      → (update_admin is_unknown admin s ≢ panic why)
        × ((update_tls conf s ≢ panic why) × (close ks http s ≢ panic why))
  unfolding update_admin update_tls close check_running verify_tls
  Reach-no_panic s r is_unknown admin conf ks http why =
      let inv = Reach-Inv r in
      let stated = inv.stated in
      let served = inv.served in (λ h. ground arith, (λ h. ground arith, λ h. ground arith))
