-- ===== src/KeyStore/Interface.antt =====
-- The KeyStore interface of keystore.go over a state `S`. The context argument of its methods is
-- dropped: whether a call is cancelled is a matter of the store, which then returns an error.
use kes.Prelude.{ℕ, Option, List, ℤ, Text, text_eq}
use kes.Api.Errors.{Error, Result}

-- KeyStoreState
pub record KeyStoreState : Type 0 where
  -- in nanoseconds, as a time.Duration
  pub latency : ℕ

pub record KeyStore (S : Type 0) : Type 0 where
  pub status : S → S × Result KeyStoreState
  -- `none` is a nil error.
  pub create : Text → Text → S → S × Option Error
  pub delete : Text → S → S × Option Error
  pub get : Text → S → S × Result Text
  pub list : Text → ℤ → S → S × Result (List Text × Text)
  pub close : S → S × Option Error
