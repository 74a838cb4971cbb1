-- ===== src/Api/Errors.antt =====
-- Go error values, as far as the server tells them apart, and IsError of internal/api/error.go and
-- IsUnreachable of internal/keystore/keystore.go.
pub mod Chain
use kes.Prelude.{
  ℕ, String, ◌≡◌, refl, Bool, true, false, ◌||◌, Option, none, some, List, [], arith, ◌==◌,
  if◌then◌else◌, Text, codes, text_eq,
}

-- A format string with the arguments that are printed into it.
pub record Message : Type 0 where
  pub format : String
  pub args : List Text

abbrev pub message : String → Message
message format = record { format = format; args = [] }

-- The errors of the kms-go SDK. They have a Status method; the codes are the SDK's.
pub data SdkError : Type 0 where
  key_exists key_not_found policy_not_found identity_not_found not_allowed decrypt_failed : SdkError

-- Errors of Go's standard library that the server tests for.
pub data StdError : Type 0 where
  canceled deadline_exceeded server_closed not_supported : StdError

mutual
  pub data Error : Type 0 where
    sdk : SdkError → Error
    std : StdError → Error
    -- *api.codeError, made by api.NewError
    code_error : ℕ → Message → Error
    -- *keystore.ErrUnreachable, which has no Unwrap method
    unreachable : Error → Error
    -- any error with neither a Status nor an Unwrap method
    plain : Message → Error
    -- an error with Unwrap() error, which may return nil, or Unwrap() []error
    wrapped : Error → Error
    wrapped_nil : Error
    joined : Errors → Error

  pub data Errors : Type 0 where
    none_left : Errors
    next : Error → Errors → Errors

-- What a call returns: a run-time panic, an error, or the results for a nil error.
pub data Result {ℓ} (A : Type ℓ) : Type ℓ where
  panic : Message → Result A
  err : Error → Result A
  ok : A → Result A

-- `if err != nil { return ..., err }` between two calls; a panic goes on to the caller.
module _ {ℓ κ} {A : Type ℓ} {B : Type κ} where
  infixl 5 ◌>>=◌
  abbrev pub ◌>>=◌ : Result A → (A → Result B) → Result B
  panic why >>= next_call = panic why
  err e >>= next_call = err e
  ok x >>= next_call = next_call x

  -- A chain that succeeds has succeeded in its first step.
  pub >>=-eq-ok :
      (first_call : Result A) (next_call : A → Result B) {y : B}
      → (first_call >>= next_call) ≡ ok y
      → (x : A) × (first_call ≡ ok x) × (next_call x ≡ ok y)
  >>=-eq-ok (panic why) next_call h = cc
  >>=-eq-ok (err e) next_call h = cc
  >>=-eq-ok (ok x) next_call h = (x, refl, h)

infixl 5 ◌>>◌
abbrev pub ◌>>◌ {κ} : {B : Type κ} → Result (Unit {0}) → Result B → Result B
first_call >> next_call = first_call >>= λ u. next_call

-- `if !test { return ..., e }`
abbrev pub require : Bool → Error → Result (Unit {0})
require true e = ok tt
require false e = err e

-- `if !test { panic(m) }`
abbrev pub assert : Bool → Message → Result (Unit {0})
assert true m = ok tt
assert false m = panic m

-- The first of two results that is there.
abbrev pub or_else {ℓ} : {A : Type ℓ} → Option A → Option A → Option A
or_else none b = b
or_else (some a) b = some a

unfoldable mutual
  -- The API error in the chain of `e`, if there is one.
  pub is_error : Error → Option Error
  is_error (sdk s) = some (sdk s)
  is_error (std s) = none
  is_error (code_error code msg) = some (code_error code msg)
  is_error (unreachable e) = none
  is_error (plain m) = none
  is_error (wrapped e) = is_error e
  is_error wrapped_nil = none
  is_error (joined es) = is_error_list es

  pub is_error_list : Errors → Option Error
  is_error_list none_left = none
  is_error_list (next e es) = or_else (is_error e) (is_error_list es)

unfoldable mutual
  -- errors.As with a target of type *ErrUnreachable: the first one in the chain.
  pub is_unreachable : Error → Option Error
  is_unreachable (sdk s) = none
  is_unreachable (std s) = none
  is_unreachable (code_error code msg) = none
  is_unreachable (unreachable e) = some (unreachable e)
  is_unreachable (plain m) = none
  is_unreachable (wrapped e) = is_unreachable e
  is_unreachable wrapped_nil = none
  is_unreachable (joined es) = is_unreachable_list es

  pub is_unreachable_list : Errors → Option Error
  is_unreachable_list none_left = none
  is_unreachable_list (next e es) = or_else (is_unreachable e) (is_unreachable_list es)

-- Go's `==` between an error and one of the sentinels.
pub same_sdk : SdkError → SdkError → Bool
same_sdk key_exists key_exists = true
same_sdk key_not_found key_not_found = true
same_sdk policy_not_found policy_not_found = true
same_sdk identity_not_found identity_not_found = true
same_sdk not_allowed not_allowed = true
same_sdk decrypt_failed decrypt_failed = true
same_sdk _ _ = false

-- err == target, for a sentinel of the SDK or of the standard library.
unfoldable pub is_sdk : SdkError → Error → Bool
unfolding same_sdk
is_sdk t (sdk s) = same_sdk s t
is_sdk t _ = false

unfoldable pub is_canceled : Error → Bool
is_canceled (std canceled) = true
is_canceled _ = false

unfoldable pub is_deadline : Error → Bool
is_deadline (std deadline_exceeded) = true
is_deadline e = false

unfoldable mutual
  -- errors.Is, where `test` is the comparison with the target.
  pub errors_is : (Error → Bool) → Error → Bool
  errors_is test (sdk s) = test (sdk s)
  errors_is test (std s) = test (std s)
  errors_is test (code_error code msg) = test (code_error code msg)
  errors_is test (unreachable e) = test (unreachable e)
  errors_is test (plain m) = test (plain m)
  errors_is test (wrapped e) = test (wrapped e) || errors_is test e
  errors_is test wrapped_nil = test wrapped_nil
  errors_is test (joined es) = test (joined es) || errors_is_list test es

  pub errors_is_list : (Error → Bool) → Errors → Bool
  errors_is_list test none_left = false
  errors_is_list test (next e es) = errors_is test e || errors_is_list test es
