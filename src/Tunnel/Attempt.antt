-- ===== src/Tunnel/Attempt.antt =====
-- An attempt of Run as a function: runOnce up to its two loops, from the client of the endpoints to
-- the published session, and what Run does with an error.
pub mod Refines
use piaproxy.Base.{ℕ, true, Option, some, none, List, [], ◌∷◌}
use piaproxy.Base.Result.{Result, ok, err}
use piaproxy.Pia.Client.{Api, Pia, WgSession}
use piaproxy.Pia.Keys.{KeyText}
use piaproxy.Tunnel.{Floats, Tunnel, TunnelError, begin_attempt, publish}
use piaproxy.Tunnel.Backoff.{retry}
use piaproxy.Tunnel.Connect.{Devices, acquire, bring_up}
use piaproxy.Tunnel.Lifecycle.{
  Sys, Phase, starting, attempting, keyed, serving, waiting, fail_attempt,
}

-- The clock, when addKeyAt is set and when the session is published.
pub record AttemptClock : Type 0 where
  pub added : ℕ
  pub published : ℕ

module _ {F : Type 0} where
  abbrev pub begun : Sys F → Sys F
  begun s = record s { phase = attempting; tunnel = begin_attempt s.tunnel }

  abbrev pub key_added : ℕ → Sys F → Sys F
  key_added now s = record s { phase = keyed; tunnel = record s.tunnel { add_key_at = some now } }

  -- An error of runOnce in Run, with a context that is not done.
  abbrev pub failed_with : TunnelError → Sys F → Sys F
  failed_with e s = record s {
    phase = waiting (retry s.backoff e).0;
    backoff = (retry s.backoff e).1;
    tunnel = fail_attempt e s.tunnel;
  }

  -- After a round: once the delay of a failure has passed, the loop goes on.
  abbrev pub next_round : Phase → Sys F → (Sys F → Pia × Sys F) → Pia → Pia × Sys F
  next_round (waiting _) s go p = go (record s { phase = starting })
  next_round _ s go p = (p, s)

  abbrev pub published_as : Floats F → WgSession → ℕ → ℕ → ℕ → Sys F → Sys F
  published_as floats session dev net now s = record s {
    phase = serving;
    tunnel = publish floats session dev net now s.tunnel;
  }

  abbrev pub with_device : Floats F → ℕ → WgSession → Result TunnelError (ℕ × ℕ) → Sys F → Sys F
  with_device floats now session (err e) s = failed_with e s
  with_device floats now session (ok (dev, net)) s = published_as floats session dev net now s

module _ {F : Type 0} (floats : Floats F) (api : Api) (keys : KeyText) (devices : Devices) where
  abbrev pub with_session : AttemptClock → Result TunnelError WgSession → Sys F → Sys F
  with_session clock (err e) s = failed_with e s
  with_session clock (ok session) s =
      with_device floats clock.published session (bring_up keys devices session).0
        (key_added clock.added s)

  -- A round of Run from the top of its loop: the client afterwards, and the tunnel.
  unfoldable pub attempt : AttemptClock → Pia → Sys F → Pia × Sys F
  attempt clock p s =
      let (result, p') = acquire api s.tunnel.cfg p in (p', with_session clock result (begun s))

  -- The loop of Run, without a cancellation, until an attempt has made a session.
  unfoldable pub attempts : List AttemptClock → Pia → Sys F → Pia × Sys F
  attempts [] p s = (p, s)
  attempts (clock ∷ clocks) p s =
      let (p', u) = attempt clock p s in next_round u.phase u (attempts clocks p') p'
