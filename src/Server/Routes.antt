-- ===== src/Server/Routes.antt =====
-- Route of internal/api/api.go: what happens between the arrival of a request and its handler.
pub mod Dispatch
use kes.Prelude.{
  ◌+◌, ◌<◌, Bool, true, false, not, ◌&&◌, ◌||◌, Option, none, some, [], ◌∷◌, arith, ltb, ◌==◌,
  if◌then◌else◌, ℤ, pos, negsuc, is_positive, is_negative, Text, codes, text_beq, text_eq,
}
use kes.Api.Errors.{Result}
use kes.Auth.Requests.{HttpRequest, Request}
use kes.Server.State.{ServerState, fail, fail_error, Handled, on_ok}

pub record Route (S : Type 0) : Type 0 where
  pub method : Text
  pub path : Text
  pub max_body : ℤ
  pub timeout : ℤ
  pub auth : HttpRequest → Result Request
  pub handler : ServerState S → Request → Handled S

-- What SetWriteDeadline gives: no error, ErrNotSupported or another error.
pub data Deadline : Type 0 where
  deadline_set deadline_not_supported deadline_failed : Deadline

-- r.Method != ro.Method, unless a POST is sent for a PUT
unfoldable pub wrong_method : Text → Text → Bool
wrong_method received expected =
    not (text_beq received expected)
    && (not (text_beq received (codes "POST")) || not (text_beq expected (codes "PUT")))

-- if len(r.URL.Path) > 0 && r.URL.Path[0] != '/' { r.URL.Path = "/" + r.URL.Path }
unfoldable pub canonical : Text → Text
canonical [] = []
canonical (c ∷ path) = if c == b'/' then c ∷ path else b'/' ∷ c ∷ path

-- strings.CutPrefix
unfoldable pub cut_prefix : Text → Text → Option Text
cut_prefix [] s = some s
cut_prefix (a ∷ p) [] = none
cut_prefix (a ∷ p) (b ∷ s) = let rest = cut_prefix p s in if a == b then rest else none

-- a > b
unfoldable pub exceeds : ℤ → ℤ → Bool
exceeds (pos a) (pos b) = ltb b a
exceeds (pos a) (negsuc b) = true
exceeds (negsuc a) (pos b) = false
exceeds (negsuc a) (negsuc b) = ltb a b

-- if r.ContentLength < 0 || r.ContentLength > int64(ro.MaxBody) { r.ContentLength = int64(ro.MaxBody) }
unfoldable pub limited_length : ℤ → ℤ → ℤ
limited_length max_body content_length =
    if is_negative content_length || exceeds content_length max_body
    then max_body
    else content_length

-- The request with its canonical path and, if ro.MaxBody >= 0, with its body limited.
unfoldable pub limit_body : ℤ → HttpRequest → HttpRequest
limit_body max_body r = if is_negative max_body then r else record r {
  content_length = limited_length max_body r.content_length;
  max_bytes = some (limited_length max_body r.content_length);
}

module _ {S : Type 0} (ro : Route S) where
  unfoldable pub prepared : HttpRequest → HttpRequest
  prepared r = limit_body ro.max_body (record r { path = canonical r.path })

  -- From the call of the authenticator on.
  unfoldable pub serve_authenticated : ServerState S → Text → HttpRequest → Handled S
  serve_authenticated st resource r =
      on_ok st (ro.auth r) (λ e. fail_error e ∷ [])
        λ req. ro.handler st (record req { resource = resource })

  unfoldable pub with_deadline : ServerState S → Deadline → Handled S → Handled S
  with_deadline st deadline_set served = served
  with_deadline st deadline_not_supported served = (
    st,
    fail 500 (record { format = "route '%s' does not support timeouts"; args = ro.path ∷ [] }) ∷ [],
  )
  with_deadline st deadline_failed served = (
    st,
    fail 500 (record { format = "failed to set timeout on route '%s'"; args = ro.path ∷ [] }) ∷ [],
  )

  unfoldable pub serve_http : Deadline → ServerState S → HttpRequest → Handled S
  serve_http deadline st r =
      if wrong_method r.method ro.method
      then (
        st,
        fail 405 (record {
          format = "received method '%s' expected '%s'";
          args = r.method ∷ ro.method ∷ [];
        })
            ∷ [],
      )
      else elim (cut_prefix ro.path (canonical r.path)) [
        | none ↦ (
          st,
          fail 500 (record {
            format = "routing error: request '%s' handled by route '%s'";
            args = canonical r.path ∷ ro.path ∷ [];
          })
              ∷ [],
        )
        | some resource ↦
            if is_positive ro.timeout
            then with_deadline st deadline (serve_authenticated st resource (prepared r))
            else serve_authenticated st resource (prepared r)
      ]
