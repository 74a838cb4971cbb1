-- ===== src/Api/Errors/Chain.antt =====
-- IsError of internal/api/error.go and the chain of wrapped errors.
use kes.Prelude.{◌≡◌, refl, ◌⊎◌, inl, inr, true, Option, none, some, is_some, text_eq}
use mathlib.Core.Path.{subst}
use mathlib.Core.Option.{some-injective}
use kes.Api.Errors.{
  Error, Errors, sdk, std, code_error, unreachable, plain, wrapped, wrapped_nil, joined, none_left,
  next, is_error, is_error_list, or_else,
}

-- The errors with a Status method.
abbrev pub HasStatus : Error → Type 0
HasStatus (sdk s) = Unit
HasStatus (code_error c m) = Unit
HasStatus _ = ⊥

mutual
  -- `a` is met while `e` is unwrapped.
  pub data Unwraps (a : Error) : Error → Type 0 where
    self : Unwraps a a
    through : {e : Error} → Unwraps a e → Unwraps a (wrapped e)
    among : {es : Errors} → UnwrapsOne a es → Unwraps a (joined es)

  pub data UnwrapsOne (a : Error) : Errors → Type 0 where
    first : {e : Error} {es : Errors} → Unwraps a e → UnwrapsOne a (next e es)
    later : {e : Error} {es : Errors} → UnwrapsOne a es → UnwrapsOne a (next e es)

or_else-cases :
    (o q : Option Error) {a : Error} → or_else o q ≡ some a → (o ≡ some a) ⊎ (q ≡ some a)
or_else-cases none q h = inr h
or_else-cases (some b) q h = inl h

mutual
  unfolding is_error

  sound : (e a : Error) → is_error e ≡ some a → HasStatus a × Unwraps a e
  sound (sdk s) a h = subst (λ x. HasStatus x × Unwraps x (sdk s)) (some-injective _ _ h) (tt, self)
  sound (std s) a h = cc
  sound (code_error code msg) a h =
      subst (λ x. HasStatus x × Unwraps x (code_error code msg)) (some-injective _ _ h) (tt, self)
  sound (unreachable e) a h = cc
  sound (plain m) a h = cc
  sound (wrapped e) a h = let r = sound e a h in (r.0, through r.1)
  sound wrapped_nil a h = cc
  sound (joined es) a h = let r = sound_list es a h in (r.0, among r.1)

  sound_list : (es : Errors) (a : Error) → is_error_list es ≡ some a → HasStatus a × UnwrapsOne a es
  sound_list none_left a h = cc
  sound_list (next e es) a h = elim (or_else-cases (is_error e) (is_error_list es) h) [
    | inl p ↦ let r = sound e a p in (r.0, first r.1)
    | inr p ↦ let r = sound_list es a p in (r.0, later r.1)
  ]

is_error_self : (a : Error) → HasStatus a → is_some (is_error a) ≡ true
unfolding is_error
is_error_self (sdk s) h = refl
is_error_self (code_error c m) h = refl
is_error_self (std s) h = elim h [ ]
is_error_self (unreachable e) h = elim h [ ]
is_error_self (plain m) h = elim h [ ]
is_error_self (wrapped e) h = elim h [ ]
is_error_self wrapped_nil h = elim h [ ]
is_error_self (joined es) h = elim h [ ]

or_else-left : (o q : Option Error) → is_some o ≡ true → is_some (or_else o q) ≡ true
or_else-left none q h = cc
or_else-left (some a) q h = refl

or_else-right : (o q : Option Error) → is_some q ≡ true → is_some (or_else o q) ≡ true
or_else-right none q h = h
or_else-right (some a) q h = refl

mutual
  unfolding is_error

  complete : {a e : Error} → Unwraps a e → HasStatus a → is_some (is_error e) ≡ true
  complete {a} self h = is_error_self a h
  complete (through u) h = complete u h
  complete (among u) h = complete_list u h

  complete_list :
      {a : Error} {es : Errors} → UnwrapsOne a es → HasStatus a → is_some (is_error_list es) ≡ true
  complete_list (first {e = e} {es = es} u) h =
      or_else-left (is_error e) (is_error_list es) (complete u h)
  complete_list (later {e = e} {es = es} u) h =
      or_else-right (is_error e) (is_error_list es) (complete_list u h)

-- The error that IsError returns has a Status method and is met while the error is unwrapped.
pub is_error_sound : (e a : Error) → is_error e ≡ some a → HasStatus a × Unwraps a e
is_error_sound e a h = sound e a h

-- Whenever unwrapping the error meets one with a Status method, IsError reports that it found one.
pub is_error_complete : (e a : Error) → HasStatus a → Unwraps a e → is_some (is_error e) ≡ true
is_error_complete e a h u = complete u h
