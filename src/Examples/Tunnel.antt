-- ===== src/Examples/Tunnel.antt =====
-- The life of a tunnel, and the theorems about it.
use piaproxy.Base.{
  none, ℕ, ◌+◌, ◌*◌, ◌≡◌, refl, true, false, some, List, [], ◌∷◌, Bytes, codes, str_eq,
}
use piaproxy.Base.Int.{pos, negsuc}
use piaproxy.Base.Result.{Result, ok}
use piaproxy.Base.Time.{minute}
use piaproxy.Net.{NetError}
use piaproxy.Pia.Http.{RateLimitError, rate_limited, token_endpoint, token_empty}
use piaproxy.Tunnel.{
  set_state, new_tunnel, Floats, TunnelError, add_key, invalid_peer_ip, publish, begin_attempt,
}
use piaproxy.Tunnel.Backoff.{first_backoff, delays, schedule, delays-schedule}
use piaproxy.Tunnel.Monitor.{
  StatsText, Probe, read_counters, split_lines, read_stat, read_lines, cut,
}
use piaproxy.Tunnel.Monitor.{Round, stats, health, rounds}
use piaproxy.Tunnel.Monitor.Health.{SameSession}
use piaproxy.Tunnel.Monitor.Watch.{Watch, watch_all, Shows, rounds-Watched}
use piaproxy.Tunnel.Lifecycle
use piaproxy.Tunnel.Lifecycle.{
  Sys, start, begin, serve, Reach, here, next, attempting, keyed, serving,
}
use piaproxy.Tunnel.Lifecycle.Invariant.{Inv, Reach-Inv}
use piaproxy.Examples.Session.{session, city}

-- Rates that are rounded down to natural numbers.
abbrev pub floats : Floats ℕ
floats = record {
  zero_rate = 0;
  one = 1;
  alpha = 0;
  of_uint64 = λ n. n;
  seconds = λ n. n;
  plus = λ a b. a + b;
  minus = λ a b. 0;
  times = λ a b. a * b;
  over = λ a b. a;
}

abbrev limited : RateLimitError
limited = record { endpoint = token_endpoint; status = []; body = []; retry_after = pos 1 }

abbrev errors : List TunnelError
errors =
    invalid_peer_ip ∷ add_key token_empty ∷ add_key (rate_limited limited) ∷ invalid_peer_ip ∷ []

delays-schedule_example : delays first_backoff errors ≡ schedule 0 errors
delays-schedule_example = delays-schedule errors

abbrev pub started : Sys ℕ
started = start floats city

abbrev begun : Sys ℕ
begun = record started { phase = attempting; tunnel = begin_attempt started.tunnel }

abbrev registered : Sys ℕ
registered = record begun { phase = keyed; tunnel = record begun.tunnel { add_key_at = some 99 } }

abbrev pub served : Sys ℕ
served = record registered {
  phase = serving;
  tunnel = publish floats session 3 2 100 registered.tunnel;
}

starts : Reach floats (start floats city) served
unfolding start
starts =
    next (next (next here (begin refl refl refl)) (Lifecycle.registered 99 refl refl))
      (serve session 3 2 100 refl refl)

Reach-Inv_example : Inv served
Reach-Inv_example = Reach-Inv floats city served starts

abbrev connect : ℕ → Bytes → Bytes → Result NetError ℕ
connect n network addr = ok n

abbrev text : StatsText
text = record { trim_space = λ s. s; parse_uint = λ s. 7; parse_int = λ s. pos 7 }

abbrev raw : Bytes
raw = codes "last_handshake_time_sec=7"

raw_reads : (read_counters text raw).hs_sec ≡ pos 7
unfolding read_counters read_lines split_lines read_stat cut str_eq
raw_reads = refl

abbrev failed_probe : Probe
failed_probe = record {
  healthy = false;
  status = codes "500";
  probe_latency = 9;
  ping_latency = negsuc 0;
}

abbrev loops : List Round
loops =
    health failed_probe 200 300
    ∷ stats none 400 400
    ∷ stats (some raw) 500 (2 * minute)
    ∷ health (record failed_probe { healthy = true }) 600 (9 * minute)
    ∷ stats (some raw) 700 (9 * minute)
    ∷ []

abbrev watched : Watch
watched = record { is_well = true; handshake = none; probes = 0; failures = 0 }

served-Shows : Shows served.tunnel watched
unfolding publish begin_attempt set_state start new_tunnel
served-Shows = record {
  state = refl;
  message = refl;
  handshake = refl;
  probes = refl;
  failures = refl;
}

rounds-Watched_example :
    Shows (rounds floats text loops served.tunnel) (watch_all text loops watched)
    × SameSession served.tunnel (rounds floats text loops served.tunnel)
rounds-Watched_example = rounds-Watched floats text loops served.tunnel watched served-Shows
