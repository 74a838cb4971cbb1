-- ===== src/KeyStore/Remote.antt =====
-- What the key stores of internal/keystore that call a server have in common: calls that change the
-- state of the server and may fail, one after the other, and the errors made of errors.
use kes.Prelude.{
  String, Bool, true, false, Option, none, some, List, ◌||◌, Text, text_eq, ◌≡◌, refl, ap,
  if◌then◌else◌,
}
use kes.Api.Errors.{Error, Result, ok, err, panic, plain, errors_is, is_canceled, is_deadline}

abbrev pub Run {ℓ} : Type 0 → Type ℓ → Type ℓ
Run S A = S → S × Result A

module _ {ℓ κ} {S : Type 0} {A : Type ℓ} {B : Type κ} where
  abbrev pub and_then : S × Result A → (A → Run S B) → S × Result B
  and_then (s, panic why) k = (s, panic why)
  and_then (s, err e) k = (s, err e)
  and_then (s, ok x) k = k x s

  infixl 5 ◌>>=◌
  abbrev pub ◌>>=◌ : Run S A → (A → Run S B) → Run S B
  (c >>= k) s = and_then (c s) k

infixl 5 ◌>>◌
abbrev pub ◌>>◌ {κ} : {S : Type 0} {B : Type κ} → Run S (Unit {0}) → Run S B → Run S B
c >> k = c >>= λ u. k

module _ {ℓ} {S : Type 0} {A : Type ℓ} where
  -- A step without a call.
  abbrev pub lift : Result A → Run S A
  lift r s = (s, r)

  abbrev pub give : A → Run S A
  give x s = (s, ok x)

  abbrev pub stop : Error → Run S A
  stop e s = (s, err e)

  abbrev pub changed : (Error → Error) → S × Result A → S × Result A
  changed f (s, panic why) = (s, panic why)
  changed f (s, err e) = (s, err (f e))
  changed f (s, ok x) = (s, ok x)

  -- `if err != nil { return ..., f(err) }`
  abbrev pub on_error : Run S A → (Error → Error) → Run S A
  on_error c f s = changed f (c s)

-- `if !test { return ..., e }`
abbrev pub guard : {S : Type 0} → Bool → Error → Run S (Unit {0})
guard true e s = (s, ok tt)
guard false e s = (s, err e)

-- errors.Is(err, context.Canceled) || errors.Is(err, context.DeadlineExceeded)
abbrev pub is_context_error : Error → Bool
is_context_error e = errors_is is_canceled e || errors_is is_deadline e

abbrev pub fail_first : {S : Type 0} → Option Error → Run S (Unit {0})
fail_first none s = (s, ok tt)
fail_first (some e) s = (s, err e)

-- fmt.Errorf with the arguments.
abbrev pub failure : String → List Text → Error
failure format args = plain (record { format = format; args = args })

module _ {ℓ κ} {S : Type 0} {A : Type ℓ} {B : Type κ} where
  -- A chain that succeeds has succeeded in its first call.
  pub and_then-eq-ok :
      (r : S × Result A) (k : A → Run S B) {t : S} {y : B}
      → and_then r k ≡ (t, ok y)
      → (s : S) × (x : A) × (r ≡ (s, ok x)) × (k x s ≡ (t, ok y))
  and_then-eq-ok (s, panic why) k h = cc
  and_then-eq-ok (s, err e) k h = cc
  and_then-eq-ok (s, ok x) k h = (s, x, refl, h)

module _ {ℓ} {S : Type 0} {A : Type ℓ} where
  pub changed-eq-ok :
      (f : Error → Error) (r : S × Result A) {s : S} {x : A}
      → changed f r ≡ (s, ok x)
      → r ≡ (s, ok x)
  changed-eq-ok f (s, panic why) h = cc
  changed-eq-ok f (s, err e) h = cc
  changed-eq-ok f (s, ok x) h = h

abbrev pub Fails {ℓ} : {A : Type ℓ} → Result A → Type 0
Fails (panic why) = Unit
Fails (err e) = Unit
Fails (ok x) = ⊥

-- Where the other branch fails, a check that succeeds has held.
pub check-eq-ok :
    {S : Type 0} (b : Bool) (r : Result (Unit {0})) (s : S) {t : S}
    → Fails r
    → (if b then give tt else lift r) s ≡ (t, ok tt)
    → (b ≡ true) × (s ≡ t)
check-eq-ok true r s f h = (refl, ap (λ p. p.0) h)
check-eq-ok false (panic why) s f h = absurd (cc)
check-eq-ok false (err e) s f h = absurd (cc)
check-eq-ok false (ok x) s f h = absurd f

pub guard-eq-ok :
    {S : Type 0} (b : Bool) (e : Error) (s : S) {t : S}
    → guard b e s ≡ (t, ok tt)
    → (b ≡ true) × (s ≡ t)
guard-eq-ok true e s h = (refl, ap (λ p. p.0) h)
guard-eq-ok false e s h = absurd (cc)

pub fail_first-eq-ok :
    {S : Type 0} (o : Option Error) (s : S) {t : S}
    → fail_first o s ≡ (t, ok tt)
    → (o ≡ none) × (s ≡ t)
fail_first-eq-ok none s h = (refl, ap (λ p. p.0) h)
fail_first-eq-ok (some e) s h = absurd (cc)
