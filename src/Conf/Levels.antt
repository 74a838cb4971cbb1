-- ===== src/Conf/Levels.antt =====
-- parseLogLevel of kesconf/config.go.
use kes.Prelude.{
  none, some, [], ◌∷◌, if◌then◌else◌, ℤ, pos, negsuc, Text, codes, text_beq, has_prefix,
}
use kes.Api.Errors.{Result, ok, err, plain, Error, ◌>>=◌}
use kes.Conf.Texts.{
  to_upper, trim_space, cut, NumError, invalid_syntax, out_of_range, Parsed, wrong, number, atoi,
  add_int,
}

-- The levels of slog that have names.
pub data Base : Type 0 where
  debug info warn error : Base

-- slog.LevelDebug, slog.LevelInfo, slog.LevelWarn and slog.LevelError
abbrev pub level : Base → ℤ
level debug = negsuc 3
level info = pos 0
level warn = pos 4
level error = pos 8

-- Their String method, and the constants of the function.
abbrev pub name : Base → Text
name debug = codes "DEBUG"
name info = codes "INFO"
name warn = codes "WARN"
name error = codes "ERROR"

abbrev pub invalid_level : Text → Error
invalid_level val = plain (record { format = "kesconf: invalid log level '%s'"; args = val ∷ [] })

-- The error of strconv.Atoi, as it is and within fmt.Errorf.
abbrev pub num_error : Text → NumError → Error
num_error s invalid_syntax =
    plain (record { format = "strconv.Atoi: parsing %q: invalid syntax"; args = s ∷ [] })
num_error s out_of_range =
    plain (record { format = "strconv.Atoi: parsing %q: value out of range"; args = s ∷ [] })

abbrev pub suffix_error : Text → NumError → Error
suffix_error s invalid_syntax = plain (record {
  format = "kesconf: invalid log level suffix '%s': strconv.Atoi: parsing %q: invalid syntax";
  args = s ∷ s ∷ [];
})
suffix_error s out_of_range = plain (record {
  format = "kesconf: invalid log level suffix '%s': strconv.Atoi: parsing %q: value out of range";
  args = s ∷ s ∷ [];
})

abbrev pub parsed : (NumError → Error) → Parsed ℤ → Result ℤ
parsed fail (wrong e) = err (fail e)
parsed fail (number n) = ok n

-- The function parseLevel within it.
unfoldable pub parse_level : Text → Base → Result ℤ
parse_level val base = elim (cut b'+' val) [
  | none ↦ err (invalid_level val)
  | some (before, suffix) ↦
      if text_beq (trim_space before) (name base)
      then parsed (suffix_error suffix) (atoi suffix) >>= (λ (n : ℤ). ok (add_int (level base) n))
      else err (invalid_level val)
]

-- A case of the switch: the level by its name, or by its name and a suffix.
abbrev pub from_base : Text → Base → Result ℤ
from_base s base = if text_beq s (name base) then ok (level base) else parse_level s base

-- The levels of the function after the text is trimmed and in capitals.
unfoldable pub parse_upper : Text → Result ℤ
parse_upper s =
    if text_beq s []
    then ok (level info)
    else if text_beq s (codes "ON")
    then ok (level info)
    else if text_beq s (codes "OFF")
    then ok (add_int (level error) (pos 1))
    else if has_prefix (name debug) s
    then from_base s debug
    else if has_prefix (name info) s
    then from_base s info
    else if has_prefix (name warn) s
    then from_base s warn
    else if has_prefix (name error) s
    then from_base s error
    else parsed (num_error s) (atoi s)

unfoldable pub parse_log_level : Text → Result ℤ
parse_log_level s = parse_upper (trim_space (to_upper s))
