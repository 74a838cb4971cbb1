-- ===== src/Http/Retry/Answers.antt =====
-- Do of the retrying HTTP client, by the answers that the requests get.
use kes.Prelude.{
  ℕ, ◌*◌, ◌/◌, nat_eq, zero, suc, ◌≤◌, ◌≡◌, refl, sym, ap, ◌∙◌, ◌⊎◌, inl, inr, Bool, true, false,
  not, ◌&&◌, Option, none, some, List, ◌∷◌, leb, arith, Bool-cases, ℤ, pos, if◌then◌else◌,
}
use kes.Api.Errors.{Error, Result, ok}
use kes.Http.Retry.{
  Response, Sent, Network, Client, Body, no_body, seekable, not_seekable, Retry, attempts, delay_of,
  jitter_of, unit_of, is_temporary, temporary_error, drain_response, extra, pause, rewind, conclude,
  fails, resume, loop, do_request,
}
use mathlib.Core.Path.{subst}

-- `sent` are the answers that the requests have got, the latest first. No wait is cut off by the
-- context, and the body can be read again.
pub record Undisturbed {S : Type 0} (c : Client S) (sent : S → List Sent) : Type 0 where
  pub send_adds : (s : S) → sent (c.send s).0 ≡ (c.send s).1 ∷ sent s
  pub drain_keeps : (r : Response) (s : S) → sent (c.drain r s) ≡ sent s
  pub draw_keeps : (n : ℕ) (s : S) → sent (c.draw n s).0 ≡ sent s
  pub wait_keeps : (d : ℤ) (n : ℕ) (s : S) → sent (c.wait d n s).0 ≡ sent s
  pub waits : (d : ℤ) (n : ℕ) (s : S) → (c.wait d n s).1 ≡ none
  pub seek_keeps : (s : S) → sent (c.seek s).0 ≡ sent s
  pub seeks : (s : S) → (c.seek s).1 ≡ none

abbrev pub below_500 : Option Response → Bool
below_500 none = true
below_500 (some r) = not (leb 500 r.status_code)

abbrev pub can_seek : Body → Bool
can_seek no_body = true
can_seek seekable = true
can_seek not_seekable = false

suc_or : {P : Type 0} {k n : ℕ} → P ⊎ (k ≡ n) → P ⊎ (suc k ≡ suc n)
suc_or (inl p) = inl p
suc_or (inr e) = inr (ap suc e)

module _ (net : Network) where
  -- An answer after which a request is not sent again: neither a temporary network error nor a 5xx.
  abbrev pub is_final : Sent → Bool
  is_final a = not (is_temporary net a.error) && below_500 a.response

  -- What the caller is told of the last answer.
  abbrev pub told : Sent → Sent
  told a =
      if is_temporary net a.error
      then record { response = none; error = some (temporary_error net a.error) }
      else a

  -- `after` is `before` and then k answers that are not final.
  abbrev pub Failures : ℕ → List Sent → List Sent → Type 0
  Failures zero before after = before ≡ after
  Failures (suc k) before after = (a : Sent) × (is_final a ≡ false) × Failures k (a ∷ before) after

  -- After the requests: k failures, at most n, and the last answer, which is final unless k = n.
  abbrev pub Outcome : {S : Type 0} → (S → List Sent) → ℕ → List Sent → S × Result Sent → Type 0
  Outcome sent n before r =
      (k : ℕ) × (failures : List Sent) × (last : Sent) × (sent r.0 ≡ last ∷ failures)
      × Failures k before failures
      × (k ≤ n)
      × ((is_final last ≡ true) ⊎ (k ≡ n))
      × (r.1 ≡ ok (told last))

  final_lem : (a : Sent) → is_final a ≡ not (fails net a)
  final_lem a = ground arith

  module _ {S : Type 0} (c : Client S) (sent : S → List Sent) (law : Undisturbed c sent) where
    drain_response-sent : (r : Option Response) (s : S) → sent (drain_response net c r s) ≡ sent s
    drain_response-sent none s = refl
    drain_response-sent (some r) s = law.drain_keeps r s

    conclude_lem :
        (s : S) (a : Sent)
        → (sent (conclude net c (s, a)).0 ≡ sent s) × ((conclude net c (s, a)).1 ≡ ok (told a))
    conclude_lem s a = elim (Bool-cases (is_temporary net a.error)) [
      | inl q ↦ simp q (drain_response-sent a.response s, refl)
      | inr q ↦ simp q (refl, refl)
    ]

    rewind_lem :
        (body : Body) (s : S)
        → (sent (rewind net c body s).0 ≡ sent s) × ((rewind net c body s).1 ≡ none)
    rewind_lem no_body s = (refl, refl)
    rewind_lem seekable s = (law.seek_keeps s, law.seeks s)
    rewind_lem not_seekable s = (law.seek_keeps s, law.seeks s)

    waited_lem :
        (body : Body) (s : S) (cut_off : Option Error) (next : S → S × Result Sent)
        → cut_off ≡ none
        → (t : S) × (sent t ≡ sent s) × (resume net c body (s, ok cut_off) next ≡ next t)
    waited_lem body s (some e) next h = absurd (cc)
    waited_lem body s none next h =
        let back = rewind_lem body s in ((rewind net c body s).0, back.0, rw (resume, back.1) refl)

    -- The rest of a round sends the request again.
    resume_lem :
        (delay : ℤ) (j : ℕ) (body : Body) (s : S) (next : S → S × Result Sent)
        → (t : S) × (sent t ≡ sent s)
          × (resume net c body (pause net c delay (extra net c (pos j) s)) next ≡ next t)
    unfolding extra
    resume_lem delay j body s next =
        let drawn = c.draw (j / unit_of j) s in
        let more = drawn.1 * unit_of j in
        let waited = c.wait delay more drawn.0 in
        let (t, same, again) =
          waited_lem body waited.0 waited.1 next (law.waits delay more drawn.0) in
        (t, same ∙ law.wait_keeps delay more drawn.0 ∙ law.draw_keeps (j / unit_of j) s, again)

    loop_lem :
        (n : ℕ) (delay : ℤ) (j : ℕ) (body : Body) (s : S) (a : Sent) (before : List Sent)
        → sent s ≡ a ∷ before
        → Outcome sent n before (loop net c n delay (pos j) body (s, a))
    unfolding loop
    loop_lem zero delay j body s a before h =
        let told_last = conclude_lem s a in
        (0, before, a, told_last.0 ∙ h, refl, omega arith, inr refl, told_last.1)
    loop_lem (suc n) delay j body s a before h = elim (Bool-cases (fails net a)) [
      | inl q ↦
          let drained = drain_response net c a.response s in
          let next : S → S × Result Sent = λ u. loop net c n delay (pos j) body (c.send u) in
          let (t, same, again) = resume_lem delay j body drained next in
          let answer = (c.send t).1 in
          let so_far : sent (c.send t).0 ≡ answer ∷ (a ∷ before) =
            law.send_adds t ∙ ap (◌∷◌ answer) (same ∙ drain_response-sent a.response s ∙ h) in
          let (k, failures, last, all, failed, most, why, result) =
            loop_lem n delay j body (c.send t).0 answer (a ∷ before) so_far in
          let goes_on : loop net c (suc n) delay (pos j) body (s, a) ≡ next t =
            rw (loop, q) again in
          subst (Outcome sent (suc n) before) (sym goes_on) (
            suc k,
            failures,
            last,
            all,
            (a, final_lem a ∙ ap not q, failed),
            omega (arith, most),
            suc_or why,
            result,
          )
      | inr q ↦
          let told_last = conclude_lem s a in
          let ends : loop net c (suc n) delay (pos j) body (s, a) ≡ conclude net c (s, a) =
            rw (loop, q) refl in
          subst (Outcome sent (suc n) before) (sym ends) (
            0,
            before,
            a,
            told_last.0 ∙ h,
            refl,
            omega arith,
            inl (final_lem a ∙ ap not q),
            told_last.1,
          )
    ]

    -- Where no wait is cut off by the context, the body can be read again and the jitter is not
    -- negative: Do sends the request until an answer is neither a temporary network error nor a 5xx,
    -- or it has been sent 1+N times, 2 for N = 0. The caller gets the last answer, or for a temporary
    -- network error an error that says so.
    pub do_request_lem :
        (r : Retry) (j : ℕ) (body : Body) (s : S)
        → jitter_of r ≡ pos j
        → can_seek body ≡ true
        → Outcome sent (attempts r) (sent s) (do_request net c r body s)
    unfolding do_request
    do_request_lem r j no_body s h can = rw h (
        loop_lem (attempts r) (delay_of r) j no_body (c.send s).0 (c.send s).1 (sent s)
          (law.send_adds s))
    do_request_lem r j seekable s h can = rw h (
        loop_lem (attempts r) (delay_of r) j seekable (c.send s).0 (c.send s).1 (sent s)
          (law.send_adds s))
    do_request_lem r j not_seekable s h can = absurd (cc)
