-- ===== src/KeyStore/KeyControl/Refresh.antt =====
-- internal/keystore/entrust/keycontrol.go: the tokens of the key store and the goroutine that renews
-- them.
use kes.Prelude.{
  arith, inl, inr, Option-cases, ap, sym, ◌∙◌, is_some, length, ℕ, ◌+◌, ◌-◌, ◌*◌, ◌/◌, ◌^◌, ◌≡◌,
  refl, Option, none, some, List, [], ◌∷◌, ◌==◌, Text, codes, text_beq, if◌then◌else◌, text_eq,
  nat_eq,
}
use kes.Api.Errors.{Result, ok, err, panic, plain, message, ◌>>=◌}
use kes.KeyStore.Remote.{Run, lift, on_error}
use kes.KeyStore.Remote
use kes.KeyStore.Json.{text, field, end}
use kes.KeyStore.KeyControl.{Config, Client, Library, Token, mb}
use kes.KeyStore.KeyControl.Calls.{check_ok, made}

-- Durations are nanoseconds.
abbrev pub five_minutes : ℕ
five_minutes = 5 * 60 * 10 ^ 9

-- The end of login and renewToken, at the time `now`.
unfoldable pub session_token : ℕ → Token → Result Token
session_token now t =
    if text_beq t.token []
    then err (plain (message "keycontrol: login failed: auth token is empty"))
    else ok (record t {
      expires_at = some (elim t.expires_at [ none ↦ now + five_minutes | some at ↦ at ]);
    })

-- time.Until(expiresAt), where that is positive.
abbrev pub time_left : ℕ → Token → ℕ
time_left now t = elim t.expires_at [ none ↦ 0 | some at ↦ at - now ]

-- renew / 2, with the fallback where that is not positive.
abbrev pub half_of : ℕ → ℕ
half_of renew = if renew / 2 == 0 then five_minutes / 2 else renew / 2

module _ (lib : Library) {S : Type 0} (c : Client S) (config : Config) where
  unfoldable pub login : ℕ → Run S Token
  login now =
      Remote.◌>>=◌
        (lift (
          lib.marshal (
            field (codes "username") (text config.username)
              (field (codes "password") (text config.password) end))))
        (λ body.
          Remote.◌>>=◌
            (lift (
              c.join_path
                (config.endpoint ∷ codes "/vault/1.0/Login/" ∷ config.vault_id ∷ codes "/" ∷ [])))
            (λ url.
              Remote.◌>>=◌ (made lib c config (c.new_request url) (λ e. e) (c.send url body))
                (λ resp.
                  lift (
                    check_ok lib resp (lib.decode_token (resp.content mb) >>= session_token now)))))

  unfoldable pub renew_token : ℕ → Run S Token
  renew_token now =
      Remote.◌>>=◌ (lift (c.join_path (config.endpoint ∷ codes "/vault/1.0/Renew/" ∷ []))) (λ url.
        Remote.◌>>=◌ (made lib c config (c.new_request url) (λ e. e) (c.send url [])) (λ resp.
          lift (check_ok lib resp (lib.decode_token (resp.content mb) >>= session_token now))))

-- The goroutine of refreshToken: the token of the store, and the timer, if it runs.
pub record Refresher : Type 0 where
  pub token : Text
  pub timer : Option ℕ

abbrev pub start_refresher : Text → ℕ → Refresher
start_refresher token left = record { token = token; timer = some (half_of left) }

-- What one round meets: the time, and what renewToken and login return.
pub record Round : Type 0 where
  pub now : ℕ
  pub renewed : Result Token
  pub logged_in : Result Token

abbrev pub take_token : ℕ → Token → Refresher
take_token now t = record { token = t.token; timer = some (half_of (time_left now t)) }

abbrev pub after_login : Round → Refresher → Result Token → Refresher
after_login x r (ok t) = take_token x.now t
after_login x r (err e) = r
after_login x r (panic why) = r

abbrev pub after_renewal : Round → Refresher → Result Token → Refresher
after_renewal x r (ok t) = take_token x.now t
after_renewal x r (err e) = after_login x r x.logged_in
after_renewal x r (panic why) = r

-- A round, once the timer has fired. The timer is only reset with a new token.
unfoldable pub tick : Round → Refresher → Refresher
tick x r = after_renewal x (record r { timer = none }) x.renewed

-- The rounds of the goroutine. It waits for a timer that does not run for ever.
unfoldable pub refresh : Refresher → List Round → Refresher
refresh r [] = r
refresh r (x ∷ rounds) = elim r.timer [ none ↦ r | some d ↦ refresh (tick x r) rounds ]

abbrev pub token_of : Result Token → Result Token → Option Token
token_of (ok t) logged_in = some t
token_of (panic why) logged_in = none
token_of (err e) (ok t) = some t
token_of (err e) (err f) = none
token_of (err e) (panic why) = none

-- The token that a round gets: that of renewToken or else, if it fails, that of login.
abbrev pub obtained : Round → Option Token
obtained x = token_of x.renewed x.logged_in

-- The rounds up to the first one that gets no token.
abbrev pub lucky : List Round → List Round
lucky [] = []
lucky (x ∷ xs) = let rest = lucky xs in elim (obtained x) [ none ↦ [] | some t ↦ x ∷ rest ]

-- The token of the last round that has got one, or else `token`.
abbrev pub last_token : Text → List Round → Text
last_token token [] = token
last_token token (x ∷ xs) = elim (obtained x) [
  | none ↦ last_token token xs
  | some t ↦ last_token t.token xs
]

refresh-unarmed :
    (token : Text) (rounds : List Round)
    → let r : Refresher = record { token = token; timer = none } in refresh r rounds ≡ r
unfolding refresh
refresh-unarmed token [] = refl
refresh-unarmed token (x ∷ rounds) = refl

-- What a new token makes of a goroutine whose timer has fired.
abbrev taken : Round → Text → Option Token → Refresher
taken x token none = record { token = token; timer = none }
taken x token (some t) = take_token x.now t

tick-taken : (x : Round) (r : Refresher) → tick x r ≡ taken x r.token (obtained x)
unfolding tick
tick-taken x r = renewal x.renewed x.logged_in refl
  where
    renewal :
        (a b : Result Token)
        → x.logged_in ≡ b
        → after_renewal x (record r { timer = none }) a ≡ taken x r.token (token_of a b)
    renewal (ok t) b h = refl
    renewal (panic why) b h = refl
    renewal (err e) (ok t) h = ap (after_login x (record r { timer = none })) h
    renewal (err e) (err f) h = ap (after_login x (record r { timer = none })) h
    renewal (err e) (panic why) h = ap (after_login x (record r { timer = none })) h

last_token-found :
    (x : Round) (token : Text) (t : Token) (xs : List Round)
    → obtained x ≡ some t
    → last_token token (x ∷ xs) ≡ last_token t.token xs
last_token-found x token t xs h = rw (h, last_token) refl

-- From a running timer, for any sequence of rounds that refreshToken could go through, however long and whatever renewToken
-- and login return: it goes through those up to the first in which neither returns a token. The token
-- of the store is the last one that these got, and the timer runs, so that there is another round,
-- exactly if there was no such round.
pub refresh_lem :
    (xs : List Round) (token : Text) (d : ℕ)
    → let r = refresh (record { token = token; timer = some d }) xs in
      (r.token ≡ last_token token (lucky xs)) × (is_some r.timer ≡ (length (lucky xs) == length xs))
unfolding refresh
refresh_lem [] token d = (refl, refl)
refresh_lem (x ∷ xs) token d =
    let same = tick-taken x (record { token = token; timer = some d }) in
    elim (Option-cases (obtained x)) [
      | inl q ↦ rw (refresh, lucky, same, q, refresh-unarmed token xs) (refl, ground arith)
      | inr (t, q) ↦
          let next = refresh_lem xs t.token (half_of (time_left x.now t)) in
          rw (refresh, lucky, same, q)
            (next.0 ∙ sym (last_token-found x token t (lucky xs) q), ground (arith, next.1))
    ]
