-- ===== src/Tunnel/Backoff.antt =====
-- The delays of Run between attempts.
use piaproxy.Base.{
  ℕ, zero, suc, ◌+◌, ◌*◌, ◌^◌, ◌≤◌, ◌≡◌, refl, Option, none, some, List, [], ◌∷◌, if◌then◌else◌,
  ltb, arith, Option-cases, inl, inr, ◌⊎◌,
}
use piaproxy.Base.Int.{pos, ltb_ℤ, pos_part}
use piaproxy.Base.Time.{second, minute}
use piaproxy.Pia.Http.{PiaError, RateLimitError, rate_limited}
use piaproxy.Tunnel.{TunnelError, region_lookup, add_key}

abbrev pub first_backoff : ℕ
first_backoff = 2 * second

abbrev pub max_backoff : ℕ
max_backoff = 60 * second

abbrev pub rate_limit_floor : ℕ
rate_limit_floor = 5 * minute

abbrev rate_limit_in : PiaError → Option RateLimitError
rate_limit_in (rate_limited e) = some e
rate_limit_in _ = none

-- `errors.As(err, &rl)`.
unfoldable pub as_rate_limit : TunnelError → Option RateLimitError
as_rate_limit (region_lookup e) = rate_limit_in e
as_rate_limit (add_key e) = rate_limit_in e
as_rate_limit _ = none

-- The delay of a server that limits the rate.
unfoldable pub cool_down : RateLimitError → ℕ
cool_down rl =
    if ltb_ℤ rl.retry_after (pos rate_limit_floor)
    then rate_limit_floor
    else pos_part rl.retry_after

-- `backoff *= 2`, at most the largest.
unfoldable pub double : ℕ → ℕ
double backoff = if ltb max_backoff (backoff * 2) then max_backoff else backoff * 2

-- The delay after an error, and the next backoff.
unfoldable pub retry : ℕ → TunnelError → ℕ × ℕ
retry backoff e = elim (as_rate_limit e) [
  | some rl ↦ (cool_down rl, first_backoff)
  | none ↦ (backoff, double backoff)
]

-- The delays after the errors of successive attempts.
unfoldable pub delays : ℕ → List TunnelError → List ℕ
delays backoff [] = []
delays backoff (e ∷ es) = let (delay, next) = retry backoff e in delay ∷ delays next es

-- The delay after `n` ordinary failures in a row: 2, 4, 8, 16 and 32 seconds, and then 60.
abbrev pub nth_backoff : ℕ → ℕ
nth_backoff n = if ltb n 5 then 2 ^ (n + 1) * second else max_backoff

-- The schedule in closed form; `n` counts the ordinary failures since the start or since the last
-- error that was a rate limit.
abbrev pub schedule : ℕ → List TunnelError → List ℕ
schedule n [] = []
schedule n (e ∷ es) = elim (as_rate_limit e) [
  | some rl ↦ cool_down rl ∷ schedule 0 es
  | none ↦ nth_backoff n ∷ schedule (suc n) es
]

double-nth_backoff : (n : ℕ) → double (nth_backoff n) ≡ nth_backoff (suc n)
unfolding double
double-nth_backoff zero = refl
double-nth_backoff (suc zero) = refl
double-nth_backoff (suc (suc zero)) = refl
double-nth_backoff (suc (suc (suc zero))) = refl
double-nth_backoff (suc (suc (suc (suc zero)))) = refl
double-nth_backoff (suc (suc (suc (suc (suc n))))) = ground arith

delays-nth_backoff : (n : ℕ) (es : List TunnelError) → delays (nth_backoff n) es ≡ schedule n es
unfolding delays retry
delays-nth_backoff n [] = refl
delays-nth_backoff n (e ∷ es) = elim (Option-cases (as_rate_limit e)) [
  | inl ordinary ↦ ground (arith, double-nth_backoff n, delays-nth_backoff (suc n) es)
  | inr (rl, limited) ↦ ground (arith, delays-nth_backoff 0 es)
]

-- The delays of Run after any sequence of errors are those of the closed form: 2, 4, 8, 16 and 32
-- seconds and then 60 after ordinary failures in a row, from the start and again from each rate
-- limit, which has its own delay.
pub delays-schedule : (es : List TunnelError) → delays first_backoff es ≡ schedule 0 es
delays-schedule es = delays-nth_backoff 0 es

-- The delay after a rate limit is the larger of five minutes and what the server asked for.
cool_down_lem :
    (rl : RateLimitError)
    → (5 * minute ≤ cool_down rl)
      × (pos_part rl.retry_after ≤ cool_down rl)
      × ((cool_down rl ≡ 5 * minute) ⊎ (cool_down rl ≡ pos_part rl.retry_after))
unfolding cool_down
cool_down_lem rl = ground arith
