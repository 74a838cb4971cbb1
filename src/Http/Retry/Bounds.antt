-- ===== src/Http/Retry/Bounds.antt =====
-- How long the client waits.
use kes.Prelude.{ℕ, ◌*◌, ◌/◌, ◌<◌, ◌≡◌, refl, pos, nat_eq, text_eq, arith}
use kes.Api.Errors.{ok}
use kes.Http.Retry.{Network, Client, unit_of, extra}

unit_fits : (j d : ℕ) → 0 < j → (0 < j / unit_of j) × (d < j / unit_of j → d * unit_of j < j)
unit_fits j d p = ground arith

-- With a random number below its bound, what is added to the delay is less than the jitter.
pub extra_below :
    (net : Network) {S : Type 0} (c : Client S) (j : ℕ) (s : S)
    → 0 < j
    → ((n : ℕ) (t : S) → 0 < n → (c.draw n t).1 < n)
    → (more : ℕ) × ((extra net c (pos j) s).1 ≡ ok more) × (more < j)
unfolding extra
extra_below net c j s p below = (
  (c.draw (j / unit_of j) s).1 * unit_of j,
  refl,
  (unit_fits j (c.draw (j / unit_of j) s).1 p).1 (below (j / unit_of j) s (unit_fits j 0 p).0),
)
