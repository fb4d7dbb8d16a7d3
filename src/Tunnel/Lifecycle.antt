-- ===== src/Tunnel/Lifecycle.antt =====
-- `Run` with its goroutines, as a step relation: the thread of Run, the two loops beside a session,
-- and the context, which anyone may cancel at any moment.
pub mod Invariant
pub mod Stopping
use piaproxy.Base.{ℕ, Bool, true, false, Option, none, some, ◌≡◌, Bytes}
use piaproxy.Base.Int.{ℤ}
use piaproxy.Pia.Client.{WgSession}
use piaproxy.Tunnel.{
  Tunnel, Floats, CityConfig, TunnelError, new_tunnel, incr, set_error, begin_attempt, publish,
  cleanup,
}
use piaproxy.Tunnel.Backoff.{first_backoff, retry}
use piaproxy.Tunnel.Monitor.{StatsText, Probe, stats_round, health_round}

-- Where the thread of Run is: at the top of its loop, in runOnce before the key is registered,
-- between that and the publishing of the session, and after it, in the select that waits for a
-- delay, or returned.
pub data Phase : Type 0 where
  starting attempting keyed serving finished : Phase
  waiting : ℕ → Phase

-- runOnce has not published a session.
abbrev pub is_attempt : Phase → Bool
is_attempt attempting = true
is_attempt keyed = true
is_attempt _ = false

pub record Sys (F : Type 0) : Type 0 where
  pub tunnel : Tunnel F
  pub phase : Phase
  pub ctx_done : Bool
  pub backoff : ℕ

-- `connectFails` and setError, after an attempt that failed.
unfoldable pub fail_attempt : {F : Type 0} → TunnelError → Tunnel F → Tunnel F
fail_attempt e t = set_error (some e) (record t { connect_fails = incr t.connect_fails })

module _ {F : Type 0} (floats : Floats F) where
  unfoldable pub start : CityConfig → Sys F
  start cfg = record {
    tunnel = new_tunnel floats cfg;
    phase = starting;
    ctx_done = false;
    backoff = first_backoff;
  }

  pub data Step (s : Sys F) (u : Sys F) : Type 0 where
    cancel : u ≡ record s { ctx_done = true } → Step s u
    -- `if ctx.Err() != nil { return }` before and after runOnce.
    stop : s.phase ≡ starting → s.ctx_done ≡ true → u ≡ record s { phase = finished } → Step s u
    stop_failed :
        TunnelError
        → is_attempt s.phase ≡ true
        → s.ctx_done ≡ true
        → u ≡ record s { phase = finished }
        → Step s u
    begin :
        s.phase ≡ starting
        → s.ctx_done ≡ false
        → u ≡ record s { phase = attempting; tunnel = begin_attempt s.tunnel }
        → Step s u
    -- The key is registered.
    registered :
        (now : ℕ)
        → s.phase ≡ attempting
        → u ≡ record s { phase = keyed; tunnel = record s.tunnel { add_key_at = some now } }
        → Step s u
    -- runOnce returns an error before it has published a session.
    fail :
        (e : TunnelError)
        → is_attempt s.phase ≡ true
        → s.ctx_done ≡ false
        → u ≡ record s {
          phase = waiting (retry s.backoff e).0;
          backoff = (retry s.backoff e).1;
          tunnel = fail_attempt e s.tunnel;
        }
        → Step s u
    -- The context is not looked at while a session is made.
    serve :
        (session : WgSession) (device stack now : ℕ)
        → s.phase ≡ keyed
        → u
          ≡ record s { phase = serving; tunnel = publish floats session device stack now s.tunnel }
        → Step s u
    stats :
        (text : StatsText) (raw : Option Bytes) (now later : ℕ)
        → s.phase ≡ serving
        → u ≡ record s { tunnel = stats_round floats text raw now later s.tunnel }
        → Step s u
    probe :
        (p : Probe) (now later : ℕ)
        → s.phase ≡ serving
        → u ≡ record s { tunnel = health_round p now later s.tunnel }
        → Step s u
    -- The loops have ended, and the deferred cleanup runs.
    close :
        s.phase ≡ serving
        → s.ctx_done ≡ true
        → u ≡ record s { phase = finished; tunnel = cleanup true s.tunnel }
        → Step s u
    wake : (delay : ℕ) → s.phase ≡ waiting delay → u ≡ record s { phase = starting } → Step s u
    stop_waiting :
        (delay : ℕ)
        → s.phase ≡ waiting delay
        → s.ctx_done ≡ true
        → u ≡ record s { phase = finished }
        → Step s u

  pub data Reach (s : Sys F) : Sys F → Type 0 where
    here : Reach s s
    next : {u v : Sys F} → Reach s u → Step u v → Reach s v
