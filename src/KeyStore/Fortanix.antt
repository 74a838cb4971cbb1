-- ===== src/KeyStore/Fortanix.antt =====
-- internal/keystore/fortanix/keystore.go: the key store at a Fortanix SDKMS server. The HTTP client,
-- the JSON encoder and decoders, base64 and path.Join are parameters. The Authorization header of a
-- request is that of the config.
pub mod Calls
pub mod Endless
pub mod Codes
use kes.Prelude.{
  ℕ, ◌^◌, Bool, Option, List, [], ◌∷◌, ◌==◌, Text, has_prefix, if◌then◌else◌, text_eq, nat_eq,
  arith,
}
use mathlib.Core.Option
use kes.Api.Errors.{Error, Result}
use kes.KeyStore.Json.{Fields}
use kes.KeyStore.KeySecure.{Response}
use kes.KeyStore.Listing
use kes.KeyStore.Remote.{Run}

pub record Config : Type 0 where
  pub endpoint : Text
  pub group_id : Text

-- The client: the error of http.NewRequest for a method and a URL, and the call of Do.
pub record Client (S : Type 0) : Type 0 where
  pub new_request : Text → Text → Option Error
  pub send : Text → Text → Text → Run S Response

pub record ExportedKey : Type 0 where
  pub value : Text
  pub enabled : Bool

pub record Library : Type 0 where
  pub join : List Text → Text
  pub marshal : Fields → Result Text
  pub base64_encode : Text → Text
  pub base64_decode : Text → Result Text
  pub error_text : Error → Text
  pub decimal : ℕ → Text
  pub decode_message : Result Text → Result Text
  pub decode_kid : Result Text → Result Text
  pub decode_key : Result Text → Result ExportedKey
  pub decode_names : Result Text → Result (List Text)

-- mem.MB
abbrev pub mb : ℕ
mb = 10 ^ 6

-- strings.TrimSuffix(s, "/")
abbrev pub trim_slash : Text → Text
trim_slash [] = []
trim_slash (c ∷ s) =
    let rest = trim_slash s in elim s [ [] ↦ if c == b'/' then [] else c ∷ [] | d ∷ s' ↦ c ∷ rest ]

abbrev pub separator : List Text → Text
separator [] = []
separator (e ∷ elems) = if has_prefix (b'/' ∷ []) e then [] else b'/' ∷ []
