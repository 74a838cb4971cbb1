-- ===== src/Conf/Checks.antt =====
-- kesconf/config.go: the forms that the checks of ymlToKeyStore have.
use kes.Prelude.{ℕ, String, Bool, not, Option, none, some, [], Text, text_beq, text_eq}
use kes.Api.Errors.{Result, ok, require, plain, message}
use kes.Conf.Sections.{Env}

-- What the function uses of package os: os.PathSeparator, and the text of the error of os.ReadFile,
-- where it fails.
pub record Os : Type 0 where
  pub path_separator : ℕ
  pub read_error : Text → Option Text

-- if test { return nil, errors.New(text) }
abbrev pub refuse_if : Bool → String → Result (Unit {0})
refuse_if test text = require (not test) (plain (message text))

-- if field.Value == "" { return nil, errors.New(text) }
abbrev pub required : Env Text → String → Result (Unit {0})
required field text = refuse_if (text_beq field.value []) text

-- The checks on a struct behind a pointer, if it is not nil.
abbrev pub if_present : {A : Type 0} → Option A → (A → Result (Unit {0})) → Result (Unit {0})
if_present none check = ok tt
if_present (some x) check = check x
