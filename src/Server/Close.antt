-- ===== src/Server/Close.antt =====
-- Close of server.go.
use kes.Prelude.{Bool, true, false, not, ◌||◌, Option, none, some, if◌then◌else◌, text_eq}
use kes.Api.Errors.{is_deadline, Error, Result, ok, ◌>>=◌, errors_is, is_canceled}
use kes.KeyStore.Interface.{KeyStore}
use kes.KeyStore.Cache
use kes.KeyStore.Cache.{KeyCache, CacheConfig, new_cache}
use kes.Server.Lifecycle.{Running, Server, deref}

-- The http.Server: what its Shutdown and its Close return.
pub record HttpServer : Type 0 where
  pub shutdown : Option Error
  pub force_close : Option Error

abbrev pub first_error : Option Error → Option Error → Option Error
first_error none b = b
first_error (some e) b = some e

abbrev pub timed_out : Option Error → Bool
timed_out none = false
timed_out (some e) = errors_is is_canceled e || errors_is is_deadline e

-- Shutdown, and Close if it has been cut off.
unfoldable pub stop : HttpServer → Option Error
stop http = if timed_out http.shutdown then http.force_close else http.shutdown

module _ {S H A R : Type 0} (ks : KeyStore S) where
  -- state.Keys.Close(), through the pointer in the state.
  abbrev pub close_keys : Running S H A R → Running S H A R × Option Error
  close_keys r =
      let (keys, failed) = Cache.close ks r.server.keys in
      (record r { server = record r.server { keys = keys } }, failed)

module _ {S T H A R : Type 0} (ks : KeyStore S) where
  abbrev pub close_unserved :
      Option (Running S H A R) → Server S T H A R → Server S T H A R × Option Error
  close_unserved none s = (record s { closed = true }, s.c_err)
  close_unserved (some r) s =
      let (r', failed) = close_keys ks r in
      (record s { closed = true; state = some r'; c_err = failed }, failed)

  abbrev pub close_served :
      Option Error → Running S H A R → Server S T H A R → Server S T H A R × Option Error
  close_served stopped r s =
      let (r', failed) = close_keys ks r in
      let c_err = first_error stopped failed in
      (record s { closed = true; state = some r'; c_err = c_err }, c_err)

  -- Close
  unfoldable pub close : HttpServer → Server S T H A R → Result (Server S T H A R × Option Error)
  close http s =
      if s.closed
      then ok (s, s.c_err)
      else if not s.srv
      then ok (close_unserved s.state s)
      else deref s.state >>= (λ (r : Running S H A R). ok (close_served (stop http) r s))
