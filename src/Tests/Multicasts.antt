-- ===== src/Tests/Multicasts.antt =====
-- Two goroutines that use a Multicast, and an HTTP client that retries.
use kes.Prelude.{
  ◌*◌, List, ℕ, ◌≡◌, refl, false, not, ◌&&◌, none, some, [], ◌∷◌, All, if◌then◌else◌, nat_eq,
  text_eq, codes, pos,
}
use kes.Api.Multicast.{
  Multicast, add, members, round, add_round, Pc, idle, loaded, Move, call, load, finish,
  new_multicast, store, step, Reach, start, later,
}
use kes.Api.Multicast.Steps.{pending, call_of}
use kes.Api.Multicast.Linear.{step_linear}
use kes.Http.Retry.{Sent, Network, Client, seekable, millisecond, Retry, do_request}
use kes.Http.Retry.Answers.{Undisturbed, Outcome, do_request_lem}

abbrev empty : Multicast ℕ
empty = new_multicast

loaded_once : Reach 2 (record { threads = loaded (add 7) none ∷ idle ∷ []; multicast = empty })
loaded_once = later (later start (step [] (idle ∷ []) (call (add 7)))) (step [] (idle ∷ []) load)

abbrev added : Multicast ℕ
added = store (7 ∷ []) empty

add_finishes : Move empty (loaded (add 7) none) added idle
unfolding round add_round
add_finishes = finish

step_linear_example :
    (members added ≡ (
      if pending empty (loaded (add 7) none) && not (pending added idle)
      then call_of (loaded (add 7) none) (members empty)
      else members empty))
    × All (λ (q : Pc ℕ). pending added q ≡ pending empty q) (idle ∷ [])
step_linear_example =
    step_linear 2 [] (idle ∷ []) (loaded (add 7) none) idle empty added loaded_once add_finishes

abbrev network : Network
network = record {
  is_net_error = λ e. false;
  timeout = λ e. false;
  is_eof = λ e. false;
  is_unexpected_eof = λ e. false;
  url_error = λ e. e;
  text = λ e. codes "error";
}

-- A server that always answers 503; the state are its answers.
abbrev unavailable : Sent
unavailable = record { response = some (record { status_code = 503 }); error = none }

abbrev client : Client (List Sent)
client = record {
  send = λ s. (unavailable ∷ s, unavailable);
  drain = λ r s. s;
  draw = λ n s. (s, 0);
  wait = λ d n s. (s, none);
  seek = λ s. (s, none);
}

undisturbed : Undisturbed client (λ s. s)
undisturbed = record {
  send_adds = λ s. refl;
  drain_keeps = λ r s. refl;
  draw_keeps = λ n s. refl;
  wait_keeps = λ d n s. refl;
  waits = λ d n s. refl;
  seek_keeps = λ s. refl;
  seeks = λ s. refl;
}

abbrev thrice : Retry
thrice = record { n = 3; delay = pos 0; jitter = pos 0 }

do_request_lem_example :
    Outcome network (λ (s : List Sent). s) 3 [] (do_request network client thrice seekable [])
do_request_lem_example =
    do_request_lem network client (λ s. s) undisturbed thrice (800 * millisecond) seekable [] refl
      refl
