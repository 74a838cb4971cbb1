-- ===== src/Http/Retry.antt =====
-- internal/http/retry.go: an HTTP client that sends a request again after a temporary network error
-- or a 5xx response. The client underneath, the timer, the random source and the body of the request
-- are calls on a state.
pub mod Bounds
pub mod Answers
use kes.Prelude.{
  ℕ, zero, suc, ◌*◌, ◌/◌, ◌^◌, Bool, false, not, ◌&&◌, ◌||◌, Option, none, some, [], ◌∷◌, ltb, leb,
  ◌==◌, if◌then◌else◌, ℤ, pos, negsuc, Text, text_eq, nat_eq, arith,
}
use kes.Api.Errors.{Error, Result, ok, err, panic, plain, message}

-- A status code; the header and the body are the caller's.
pub record Response : Type 0 where
  pub status_code : ℕ

-- What client.Do returns: a response, an error, or both.
pub record Sent : Type 0 where
  pub response : Option Response
  pub error : Option Error

-- What is asked of an error: whether it is a net.Error, its Timeout method, and errors.Is.
pub record Network : Type 0 where
  pub is_net_error : Error → Bool
  pub timeout : Error → Bool
  pub is_eof : Error → Bool
  pub is_unexpected_eof : Error → Bool
  -- &url.Error{Op: req.Method, URL: req.URL.String(), Err: e}
  pub url_error : Error → Error
  pub text : Error → Text

pub record Client (S : Type 0) : Type 0 where
  pub send : S → S × Sent
  -- Discards the rest of a body and closes it.
  pub drain : Response → S → S
  -- rand.Int63n of a positive number
  pub draw : ℕ → S → S × ℕ
  -- Waits for a duration, and then the nanoseconds of the second argument, or until the context is
  -- done; then it returns the error of the context.
  pub wait : ℤ → ℕ → S → S × Option Error
  -- body.Seek(0, io.SeekStart)
  pub seek : S → S × Option Error

pub data Body : Type 0 where
  no_body seekable not_seekable : Body

-- Retry; `n` is a uint, and the durations are nanoseconds.
pub record Retry : Type 0 where
  pub n : ℕ
  pub delay : ℤ
  pub jitter : ℤ

abbrev pub millisecond : ℕ
millisecond = 10 ^ 6

abbrev pub microsecond : ℕ
microsecond = 1000

abbrev pub is_zero : ℤ → Bool
is_zero (pos d) = d == 0
is_zero (negsuc d) = false

abbrev pub attempts : Retry → ℕ
attempts r = if r.n == 0 then 2 else r.n

abbrev pub delay_of : Retry → ℤ
delay_of r = if is_zero r.delay then pos (200 * millisecond) else r.delay

abbrev pub jitter_of : Retry → ℤ
jitter_of r = if is_zero r.jitter then pos (800 * millisecond) else r.jitter

-- The unit in which a jitter is drawn, in nanoseconds.
abbrev pub unit_of : ℕ → ℕ
unit_of j = if ltb j microsecond then 1 else if ltb j millisecond then microsecond else millisecond

module _ (net : Network) where
  unfoldable pub is_temporary : Option Error → Bool
  is_temporary none = false
  is_temporary (some e) =
      net.is_net_error e && (net.timeout e || (net.is_eof e || net.is_unexpected_eof e))

  abbrev pub is_server_error : Option Response → Bool
  is_server_error none = false
  is_server_error (some r) = leb 500 r.status_code

  -- The condition of the loop, but for N > 0.
  abbrev pub fails : Sent → Bool
  fails sent = is_temporary sent.error || is_server_error sent.response

  abbrev pub temporary_error : Option Error → Error
  temporary_error e = net.url_error (
      plain (record {
        format = "http: temporary network error: %v";
        args = (elim e [ none ↦ [] | some x ↦ net.text x ]) ∷ [];
      }))

  module _ {S : Type 0} (c : Client S) where
    abbrev pub drain_response : Option Response → S → S
    drain_response none s = s
    drain_response (some r) s = c.drain r s

    -- rand.Int63n panics for a jitter below zero.
    unfoldable pub extra : ℤ → S → S × Result ℕ
    extra (negsuc j) s = (s, panic (message "invalid argument to Int63n"))
    extra (pos j) s = let (s', drawn) = c.draw (j / unit_of j) s in (s', ok (drawn * unit_of j))

    -- The wait before a request is sent again.
    abbrev pub pause : ℤ → S × Result ℕ → S × Result (Option Error)
    pause delay (s, ok more) = let (s', done) = c.wait delay more s in (s', ok done)
    pause delay (s, err e) = (s, err e)
    pause delay (s, panic why) = (s, panic why)

    abbrev pub rewind : Body → S → S × Option Error
    rewind no_body s = (s, none)
    rewind seekable s = c.seek s
    rewind not_seekable s = c.seek s

    -- What the caller gets after the last attempt.
    abbrev pub conclude : S × Sent → S × Result Sent
    conclude (s, sent) =
        if is_temporary sent.error
        then (
          drain_response sent.response s,
          ok (record { response = none; error = some (temporary_error sent.error) }),
        )
        else (s, ok sent)

    abbrev pub failed : Error → Result Sent
    failed e = ok (record { response = none; error = some e })

    -- The rest of a round, after the pause.
    abbrev pub resume : Body → S × Result (Option Error) → (S → S × Result Sent) → S × Result Sent
    resume body (s, panic why) next = (s, panic why)
    resume body (s, err e) next = (s, err e)
    resume body (s, ok (some e)) next = (s, failed (net.url_error e))
    resume body (s, ok none) next =
        let (s', seek_failed) = rewind body s in
        elim seek_failed [ none ↦ next s' | some e ↦ (s', failed e) ]

    unfoldable pub loop : ℕ → ℤ → ℤ → Body → S × Sent → S × Result Sent
    loop zero delay jitter body sent = conclude sent
    loop (suc n) delay jitter body (s, sent) =
        let retried =
          resume body (pause delay (extra jitter (drain_response sent.response s)))
            (λ t. loop n delay jitter body (c.send t)) in
        if fails sent then retried else conclude (s, sent)

    unfoldable pub do_request : Retry → Body → S → S × Result Sent
    do_request r no_body s = loop (attempts r) (delay_of r) (jitter_of r) no_body (c.send s)
    do_request r seekable s = loop (attempts r) (delay_of r) (jitter_of r) seekable (c.send s)
    do_request r not_seekable s = (
      s,
      failed (net.url_error (plain (message "http: request body does not implement io.Seeker"))),
    )

    -- Get, Head and Post; `new_request` is the error of http.NewRequest.
    unfoldable pub request : Retry → Option Error → Body → S → S × Result Sent
    request r none body s = do_request r body s
    request r (some e) body s = (s, failed e)

    unfoldable pub post_form : Retry → Option Error → S → S × Result Sent
    post_form r new_request s = request r new_request seekable s
