-- ===== src/KeyStore/KeyControl.antt =====
-- internal/keystore/entrust/keycontrol.go: the key store at an Entrust KeyControl server. The HTTP
-- client, the JSON encoder and decoders and base64 are parameters. The header X-Vault-Auth of a
-- request is the token, a part of the state; the timer of refreshToken is one as well.
pub mod Calls
pub mod Answers
pub mod Refresh
use kes.Prelude.{
  ℕ, ◌^◌, Bool, not, Option, none, List, [], ◌∷◌, ◌++◌, ◌==◌, ℤ, pos, negsuc, Text, if◌then◌else◌,
  text_eq, nat_eq, arith,
}
use kes.Api.Errors.{Error, Result}
use kes.KeyStore.Json.{Fields}
use kes.KeyStore.KeySecure.{Response}
use kes.KeyStore.Remote.{Run}

pub record Config : Type 0 where
  pub endpoint : Text
  pub vault_id : Text
  pub box_id : Text
  pub username : Text
  pub password : Text

-- The client: url.JoinPath, the error of http.NewRequest for a URL, and Do for a URL and a body.
pub record Client (S : Type 0) : Type 0 where
  pub join_path : List Text → Result Text
  pub new_request : Text → Option Error
  pub send : Text → Text → Run S Response

pub record Secret : Type 0 where
  pub name : Text
  pub expired : Bool

pub record Listing : Type 0 where
  pub secrets : List Secret
  pub next_token : Text

-- A token and the time at which it expires; `none` is the zero time.
pub record Token : Type 0 where
  pub token : Text
  pub expires_at : Option ℕ

pub record Library : Type 0 where
  pub marshal : Fields → Result Text
  pub base64_encode : Text → Text
  pub base64_decode : Text → Result Text
  pub error_text : Error → Text
  pub decode_error : Result Text → Result Text
  pub decode_secret : Result Text → Result Text
  pub decode_list : Result Text → Result Listing
  pub decode_token : Result Text → Result Token
  -- json.Unmarshal of a continue token, for its next_ctx
  pub unmarshal_continue : Text → Result Text

abbrev pub mb : ℕ
mb = 10 ^ 6

-- The secrets that have not expired, behind what `names` has.
abbrev pub append_names : List Text → List Secret → List Text
append_names names [] = names
append_names names (s ∷ secrets) =
    append_names (if s.expired then names else names ++ (s.name ∷ [])) secrets

-- make([]string, n)
abbrev pub empty_names : List Secret → List Text
empty_names [] = []
empty_names (s ∷ secrets) = [] ∷ empty_names secrets

abbrev pub page_size : ℤ → ℕ
page_size (pos n) = if n == 0 then 256 else n
page_size (negsuc n) = 256
