-- ===== src/Server/Routes/Dispatch.antt =====
-- When a route calls its handler, and with what.
use kes.Prelude.{
  ◌≡◌, refl, inl, inr, Bool, true, false, some, [], ◌∷◌, ◌++◌, arith, if◌then◌else◌, Bool-cases,
  Option-cases, is_positive, length, Text, text_eq,
}
use kes.Api.Errors.{Error, ok, err}
use kes.Auth.Requests.{HttpRequest, Request}
use kes.Server.State.{ServerState, Handled, on_ok}
use kes.Server.Routes.{
  Route, Deadline, deadline_set, deadline_not_supported, deadline_failed, wrong_method, canonical,
  cut_prefix, prepared, serve_authenticated, with_deadline, serve_http,
}

cut_prefix-append : (p s : Text) → cut_prefix p (p ++ s) ≡ some s
unfolding cut_prefix
cut_prefix-append [] s = refl
cut_prefix-append (a ∷ p) s = ground (arith, cut_prefix-append p s)

module _ {S : Type 0} (ro : Route S) where
  -- If the method is the route's or a POST for a PUT, the canonical path is the route's path
  -- followed by a resource, the deadline can be set and the authenticator accepts the request as
  -- limited to the route's body size, then the route answers as its handler does for the
  -- authenticated request with that resource.
  pub serve_http-accepted :
      (st : ServerState S) (r : HttpRequest) (resource : Text) (req : Request)
      → wrong_method r.method ro.method ≡ false
      → canonical r.path ≡ ro.path ++ resource
      → ro.auth (prepared ro r) ≡ ok req
      → serve_http ro deadline_set st r ≡ ro.handler st (record req { resource = resource })
  unfolding serve_http with_deadline serve_authenticated on_ok
  serve_http-accepted st r resource req m p a = elim (Bool-cases (is_positive ro.timeout)) [
    | inl t ↦ rw (m, p) (rw (cut_prefix-append ro.path resource) (rw (t, a) refl))
    | inr t ↦ rw (m, p) (rw (cut_prefix-append ro.path resource) (rw (t, a) refl))
  ]

  -- The handler has not been called: the state is as before, and there is one response.
  abbrev Refused : ServerState S → Handled S → Type 0
  Refused st h = (h.0 ≡ st) × (length h.1 ≡ 1)

  serve_authenticated-Refused :
      (st : ServerState S) (resource : Text) (r : HttpRequest) (e : Error)
      → ro.auth r ≡ err e
      → Refused st (serve_authenticated ro st resource r)
  unfolding serve_authenticated on_ok
  serve_authenticated-Refused st resource r e a = rw (length, a) (refl, refl)

  with_deadline-Refused :
      (st : ServerState S) (d : Deadline) (served : Handled S)
      → Refused st served
      → Refused st (with_deadline ro st d served)
  unfolding with_deadline
  with_deadline-Refused st deadline_set served h = h
  with_deadline-Refused st deadline_not_supported served h = (refl, refl)
  with_deadline-Refused st deadline_failed served h = (refl, refl)

  if-Refused :
      (st : ServerState S) (b : Bool) (x y : Handled S)
      → Refused st x
      → Refused st y
      → Refused st (if b then x else y)
  if-Refused st true x y h g = h
  if-Refused st false x y h g = g

  -- If the authenticator refuses the request as limited to the route's body size, then whatever the
  -- method, the path and the deadline, the handler is not called: the state is unchanged and exactly
  -- one response is sent.
  pub serve_http-refused :
      (st : ServerState S) (r : HttpRequest) (d : Deadline) (e : Error)
      → ro.auth (prepared ro r) ≡ err e
      → ((serve_http ro d st r).0 ≡ st) × (length (serve_http ro d st r).1 ≡ 1)
  unfolding serve_http
  serve_http-refused st r d e a = elim (Bool-cases (wrong_method r.method ro.method)) [
    | inl m ↦ rw (length, m) (refl, refl)
    | inr m ↦ elim (Option-cases (cut_prefix ro.path (canonical r.path))) [
      | inl n ↦ rw (length, m) (rw (length, n) (refl, refl))
      | inr (resource, s) ↦
          let served : Handled S = serve_authenticated ro st resource (prepared ro r) in
          let refused : Refused st served =
            serve_authenticated-Refused st resource (prepared ro r) e a in
          rw (length, m)
            (rw (length, s)
              (if-Refused st (is_positive ro.timeout) (with_deadline ro st d served) served
                (with_deadline-Refused st d served refused) refused))
    ]
  ]
