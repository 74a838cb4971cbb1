-- ===== src/Server/Logs.antt =====
-- log.go and Log of audit.go: which handlers get a record. Sending to subscribed clients is the write
-- to a Multicast, of which `subscribers` is Num().
use kes.Prelude.{
  ℕ, Bool, true, false, ◌&&◌, Option, none, some, ltb, if◌then◌else◌, ℤ, pos, negsuc, leb,
}
use kes.Api.Errors.{Result, ok, panic, message}

-- a >= b
abbrev pub at_least : ℤ → ℤ → Bool
at_least (pos a) (pos b) = leb b a
at_least (pos a) (negsuc b) = true
at_least (negsuc a) (pos b) = false
at_least (negsuc a) (negsuc b) = leb a b

-- logHandler; `level` and `text_level` are what the levelers say now, and a nil Leveler is `none`.
-- `text` is a slog.TextHandler that keeps the leveler that it was made with.
pub record LogHandler (H : Type 0) : Type 0 where
  pub h : H
  pub level : Option ℤ
  pub text_level : ℤ
  pub subscribers : ℕ

unfoldable pub new_log_handler : {H : Type 0} → H → ℤ → LogHandler H
new_log_handler h level = record { h = h; level = some level; text_level = level; subscribers = 0 }

-- h.level.Level()
abbrev pub level_of : {H : Type 0} → LogHandler H → Result ℤ
level_of l = elim l.level [
  | none ↦ panic (message "runtime error: invalid memory address or nil pointer dereference")
  | some level ↦ ok level
]

-- Who gets a record: the custom handler, and the subscribed clients.
pub record Sent : Type 0 where
  pub to_handler : Bool
  pub to_clients : Bool

abbrev pub handle_at : {H : Type 0} → LogHandler H → ℤ → ℤ → Result Sent
handle_at l level own_level = ok (record {
  to_handler = at_least level own_level;
  to_clients = ltb 0 l.subscribers && at_least level l.text_level;
})

abbrev pub then_handle : {H : Type 0} → LogHandler H → ℤ → Result ℤ → Result Sent
then_handle l level (panic why) = panic why
then_handle l level (Result.err e) = Result.err e
then_handle l level (ok own_level) = handle_at l level own_level

-- Handle of a record with a level.
unfoldable pub handle : {H : Type 0} → LogHandler H → ℤ → Result Sent
handle l level = then_handle l level (level_of l)

-- WithAttrs and WithGroup, with the custom handler that they make.
unfoldable pub with_attrs : {H : Type 0} → (H → H) → LogHandler H → LogHandler H
with_attrs attrs l = record l { h = attrs l.h; level = none }

-- The new handler of Update, for another Config.ErrorLog.
unfoldable pub with_error_log : {H : Type 0} → H → LogHandler H → LogHandler H
with_error_log h l = record l { h = h; level = none }

-- auditLogger; `enabled` is Enabled of the handler.
pub record AuditLogger (A : Type 0) : Type 0 where
  pub h : A
  pub level : ℤ
  pub subscribers : ℕ

unfoldable pub new_audit_logger : {A : Type 0} → A → ℤ → AuditLogger A
new_audit_logger h level = record { h = h; level = level; subscribers = 0 }

-- Log, whose records are at slog.LevelInfo.
unfoldable pub log : {A : Type 0} → (A → Bool) → AuditLogger A → Sent
log enabled a =
    if at_least (pos 0) a.level
    then record { to_handler = enabled a.h; to_clients = ltb 0 a.subscribers }
    else record { to_handler = false; to_clients = false }
