-- ===== src/Server/Lifecycle.antt =====
-- The methods of Server in server.go that start, change and close a server. Each holds the mutex `mu`
-- from its checks to its end, so calls are steps one after the other.
use kes.Prelude.{Bool, false, not, Option, none, some, [], ℤ, pos, Text, text_eq}
use kes.Prelude.Maps.{Assoc}
use kes.Api.Errors.{Error, Result, ok, err, panic, plain, message, ◌>>=◌, ◌>>◌, require}
use kes.KeyStore.Cache.{CacheConfig}
use kes.Server.State.{ServerState}
use kes.Server.Config.{TlsSettings, verify_tls}
use kes.Server.Logs.{LogHandler, AuditLogger}
use kes.Server.Setup.{PolicyConfig, init_policies}

-- serverState of state.go; R is the table of routes.
pub record Running (S H A R : Type 0) : Type 0 where
  pub addr : Text
  pub server : ServerState S
  pub cache_config : CacheConfig
  pub log_handler : LogHandler H
  pub audit_logger : AuditLogger A
  pub routes : R

-- type Server; an atomic.Pointer that is nil is `none`, and `srv` is whether the field is not nil.
pub record Server (S T H A R : Type 0) : Type 0 where
  pub err_level : ℤ
  pub audit_level : ℤ
  pub tls : Option (TlsSettings T)
  pub state : Option (Running S H A R)
  pub handler : Option R
  pub srv : Bool
  pub started : Bool
  pub closed : Bool
  pub c_err : Option Error

-- The zero value.
abbrev pub new_server : {S T H A R : Type 0} → Server S T H A R
new_server = record {
  err_level = pos 0;
  audit_level = pos 0;
  tls = none;
  state = none;
  handler = none;
  srv = false;
  started = false;
  closed = false;
  c_err = none;
}

abbrev pub nil_pointer {ℓ} : {X : Type ℓ} → Result X
nil_pointer = panic (message "runtime error: invalid memory address or nil pointer dereference")

-- A pointer that is read from.
abbrev pub deref {ℓ} : {X : Type ℓ} → Option X → Result X
deref none = nil_pointer
deref (some x) = ok x

module _ {S T H A R : Type 0} where
  -- if s.closed { ... }; if !s.started { ... }
  unfoldable pub check_running : Server S T H A R → Result (Unit {0})
  check_running s = do
    require (not s.closed) (plain (message "kes: server is closed"))
    require s.started (plain (message "kes: server not started"))

  -- if s.closed { ... }; if s.started { ... }
  unfoldable pub check_new : Server S T H A R → Result (Unit {0})
  check_new s = do
    require (not s.closed) (plain (message "kes: server is closed"))
    require (not s.started) (plain (message "kes: server already started"))

  unfoldable pub addr : Server S T H A R → Text
  addr s = elim s.state [ none ↦ [] | some r ↦ r.addr ]

  -- The server after a call, which is as it was unless the call succeeds.
  abbrev pub after : Server S T H A R → Result (Server S T H A R) → Server S T H A R
  after s (ok s') = s'
  after s (err e) = s
  after s (panic why) = s

  -- `is_unknown` is Identity.IsUnknown of the kms-go SDK.
  unfoldable pub update_admin : (Text → Bool) → Text → Server S T H A R → Result (Server S T H A R)
  update_admin is_unknown admin s = do
    require (not (is_unknown admin)) (plain (message "kes: admin identity is empty"))
    check_running s
    old ← deref s.state
    ok (record s { state = some (record old { server = record old.server { admin = admin } }) })

  unfoldable pub update_tls : Option (TlsSettings T) → Server S T H A R → Result (Server S T H A R)
  update_tls conf s = do tls ← verify_tls conf; check_running s; ok (record s { tls = some tls })

  unfoldable pub update_policies :
      Assoc Text PolicyConfig → Server S T H A R → Result (Server S T H A R)
  update_policies policies s = do
    sets ← init_policies policies
    check_running s
    old ← deref s.state
    ok (record s {
      state =
          some
            (record old { server = record old.server { policies = sets.0; identities = sets.1 } });
    })
