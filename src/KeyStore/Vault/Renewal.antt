-- ===== src/KeyStore/Vault/Renewal.antt =====
-- internal/keystore/vault/client.go: RenewToken, the goroutine that renews the token of the client.
-- Durations are nanoseconds, and the calls of the SDK take no time.
use mathlib.Core.Path.{subst}
use kes.Prelude.{
  sym, ap, ℕ, zero, suc, ◌+◌, ◌-◌, ◌*◌, ◌/◌, ◌^◌, ◌≤◌, ◌<◌, ◌≡◌, refl, Bool, false, Option, none,
  some, List, [], ◌∷◌, ltb, ◌==◌, Text, if◌then◌else◌, nat_eq, arith, Bool-cases, inl, inr,
}

-- What the SDK tells of a secret, where a TTL with an error is zero.
pub record Secret : Type 0 where
  pub ttl : ℕ
  pub token : Text
  pub renewable : Bool

-- What RenewSelf returns, and whether it is not tried again: it has no error, or one with a 4xx code.
pub record Attempt : Type 0 where
  pub secret : Option Secret
  pub final : Bool

-- What a round of the loop meets.
pub record Round : Type 0 where
  pub sealed : Bool
  pub attempts : ℕ → Attempt
  pub logged_in : Option Secret

-- The variables of the goroutine, the token of the client, the time, and the time at which the SDK
-- returned the secret.
pub record Renewer : Type 0 where
  pub secret : Option Secret
  pub ttl : ℕ
  pub token : Text
  pub now : ℕ
  pub issued : ℕ

abbrev pub second : ℕ
second = 10 ^ 9

abbrev pub longest_delay : ℕ
longest_delay = 30 * second

abbrev pub renew_in : ℕ → ℕ
renew_in ttl = 80 * (ttl / 100)

abbrev pub use_delay : ℕ → ℕ
use_delay ttl =
    let half = (ttl - renew_in ttl) / 2 in if ltb half longest_delay then half else longest_delay

-- The loop over the attempts.
unfoldable pub renew_self : ℕ → ℕ → (ℕ → Attempt) → Option Secret → Option Secret
renew_self zero i attempts s = s
renew_self (suc n) i attempts s =
    let rest = renew_self n (suc i) attempts (attempts i).secret in
    if (attempts i).final then (attempts i).secret else rest

abbrev pub or_login : Option Secret → Option Secret → Option Secret
or_login logged_in none = logged_in
or_login logged_in (some s) = some s

abbrev pub is_renewable : Option Secret → Bool
is_renewable none = false
is_renewable (some s) = s.renewable

unfoldable pub next_secret : Round → Option Secret → Option Secret
next_secret x s =
    if is_renewable s then or_login x.logged_in (renew_self 3 0 x.attempts s) else x.logged_in

-- A new secret, whose token is used after `wait`.
abbrev pub take_secret : Option Secret → ℕ → Renewer → Renewer
take_secret none wait r = record r { secret = none }
take_secret (some s) wait r = record {
  secret = some s;
  ttl = s.ttl;
  token = s.token;
  now = r.now + wait;
  issued = r.now;
}

abbrev pub wait_for : ℕ → Renewer → Renewer
wait_for d r = record r { now = r.now + d }

-- One round of the loop.
unfoldable pub round : Round → Renewer → Renewer
round x r =
    if x.sealed
    then wait_for second r
    else if ltb r.ttl longest_delay
    then wait_for (3 * second) (take_secret x.logged_in 0 r)
    else take_secret (next_secret x r.secret) (use_delay r.ttl)
        (wait_for (renew_in r.ttl) (record r { ttl = 0 }))

unfoldable pub rounds : List Round → Renewer → Renewer
rounds [] r = r
rounds (x ∷ xs) r = rounds xs (round x r)

abbrev pub started : Secret → ℕ → Renewer
started s now = record { secret = some s; ttl = s.ttl; token = s.token; now = now; issued = now }

-- The goroutine with the secret of Connect, until its context is done; a token without a TTL is not
-- renewed.
unfoldable pub renew_token : Secret → ℕ → List Round → Renewer
renew_token s now xs =
    let renewed = rounds xs (started s now) in if s.ttl == 0 then started s now else renewed

-- The secret of the goroutine, and the token of the client, are those that its TTL is about.
abbrev pub Current : Renewer → Type 0
Current r = (s : Secret) × (r.secret ≡ some s) × (r.token ≡ s.token) × (r.ttl ≡ s.ttl)

Ready : Renewer → Type 0
Ready r = longest_delay ≤ r.ttl → Current r

take_secret-Ready :
    (o : Option Secret) (wait : ℕ) (r : Renewer)
    → r.ttl < longest_delay
    → Ready (take_secret o wait r)
unfolding Ready
take_secret-Ready none wait r short long = absurd (omega arith)
take_secret-Ready (some s) wait r short long = (s, refl, refl, refl)

wait_for-Ready : (d : ℕ) (r : Renewer) → Ready r → Ready (wait_for d r)
unfolding Ready
wait_for-Ready d r h long = h long

round-Ready : (x : Round) (r : Renewer) → Ready r → Ready (round x r)
unfolding round next_secret
round-Ready x r h = elim (Bool-cases x.sealed) [
  | inl q ↦ rw (q, round) (wait_for-Ready second r h)
  | inr q ↦ elim (Bool-cases (ltb r.ttl longest_delay)) [
    | inl short ↦
        rw (q, short, round)
          (wait_for-Ready (3 * second) (take_secret x.logged_in 0 r)
            (take_secret-Ready x.logged_in 0 r (ground arith)))
    | inr long ↦
        rw (q, long, round)
          (take_secret-Ready (next_secret x r.secret) (use_delay r.ttl)
            (wait_for (renew_in r.ttl) (record r { ttl = 0 })) (omega arith))
  ]
]

rounds-Ready : (xs : List Round) (r : Renewer) → Ready r → Ready (rounds xs r)
unfolding rounds
rounds-Ready [] r h = h
rounds-Ready (x ∷ xs) r h = rounds-Ready xs (round x r) (round-Ready x r h)

renew_token-Ready : (s : Secret) (now : ℕ) (xs : List Round) → Ready (renew_token s now xs)
unfolding renew_token Ready
renew_token-Ready s now xs = elim (Bool-cases (s.ttl == 0)) [
  | inl none_left ↦ rw (none_left) (λ long. (s, refl, refl, refl))
  | inr some_left ↦ rw (some_left) (
      rounds-Ready xs
        (record { secret = some s; ttl = s.ttl; token = s.token; now = now; issued = now })
        (λ long. (s, refl, refl, refl)))
]

-- The TTL is a whole number of seconds.
abbrev pub Whole : ℕ → Type 0
Whole ttl = (k : ℕ) × (ttl ≡ k * second)

-- Vault is never sealed, and each round gets a secret with a TTL of whole seconds that is not shorter
-- than the TTL before.
abbrev pub Steady : List Round → Renewer → Type 0
Steady [] r = Unit
Steady (x ∷ xs) r =
    (x.sealed ≡ false)
    × (t : Secret) × (next_secret x r.secret ≡ some t)
    × (r.ttl ≤ t.ttl)
    × Whole t.ttl
    × Steady xs (round x r)

-- The secret is not older than the delay of its use.
abbrev Fresh : Renewer → Type 0
Fresh r = (longest_delay ≤ r.ttl) × Whole r.ttl × (r.now ≤ r.issued + use_delay r.ttl)

use_delay-le : (a b k l : ℕ) → a ≡ k * second → b ≡ l * second → a ≤ b → use_delay a ≤ use_delay b
use_delay-le a b k l p q h = ground arith

-- A round that gets a secret.
round-found :
    (x : Round) (r : Renewer) (t : Secret)
    → x.sealed ≡ false
    → longest_delay ≤ r.ttl
    → next_secret x r.secret ≡ some t
    → round x r
      ≡ take_secret (some t) (use_delay r.ttl) (wait_for (renew_in r.ttl) (record r { ttl = 0 }))
unfolding round
round-found x r t awake long found =
    let not_short : ltb r.ttl longest_delay ≡ false = ground arith in
    simp (awake, not_short, found) refl

rounds-Fresh : (xs : List Round) (r : Renewer) → Fresh r → Steady xs r → Fresh (rounds xs r)
unfolding rounds
rounds-Fresh [] r f h = f
rounds-Fresh (x ∷ xs) r (long, (k, whole), young) (awake, t, found, longer, (l, whole'), rest) =
    let next = round-found x r t awake long found in
    let later : Fresh (round x r) =
      rw next (
        omega arith,
        (l, whole'),
        omega (arith, use_delay-le r.ttl t.ttl k l whole whole' longer),
      ) in
    rounds-Fresh xs (round x r) later rest

waits-le : (ttl : ℕ) → use_delay ttl + (renew_in ttl + use_delay ttl) ≤ ttl
waits-le ttl = ground arith

-- While Vault is not sealed, and each round gets a secret whose TTL is not shorter than that of the
-- one before, with a first TTL of 30 seconds or more and all of them whole seconds, where the calls
-- of the SDK take no time: the client has the token of the last secret, and it uses that of the next
-- one no later than at the end of the last one's TTL, counted from when the SDK returned it.
pub renewed_in_time :
    (s : Secret) (now : ℕ) (xs : List Round) (x : Round) (t : Secret)
    → longest_delay ≤ s.ttl
    → Whole s.ttl
    → Steady xs (started s now)
    → x.sealed ≡ false
    → next_secret x (renew_token s now xs).secret ≡ some t
    → Current (renew_token s now xs)
      × ((round x (renew_token s now xs)).token ≡ t.token)
      × ((round x (renew_token s now xs)).now
          ≤ (renew_token s now xs).issued + (renew_token s now xs).ttl)
unfolding Ready renew_token
renewed_in_time s now xs x t long whole steady awake found =
    let r = renew_token s now xs in
    let goes_on : (s.ttl == 0) ≡ false = ground arith in
    let same : r ≡ rounds xs (started s now) = simp goes_on refl in
    let fresh : Fresh r =
      subst Fresh (sym same) (rounds-Fresh xs (started s now) (long, whole, omega arith) steady) in
    let next = round-found x r t awake fresh.0 found in
    (
      renew_token-Ready s now xs fresh.0,
      ap (λ (q : Renewer). q.token) next,
      subst (λ (q : Renewer). q.now ≤ r.issued + r.ttl) (sym next)
          (omega (arith, fresh.2, waits-le r.ttl)),
    )
