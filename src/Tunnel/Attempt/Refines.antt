-- ===== src/Tunnel/Attempt/Refines.antt =====
-- The function makes runs of the step relation.
use piaproxy.Base.{ℕ, ◌≡◌, refl, ◌∙◌, ◌⊎◌, inl, inr, false, some, List, [], ◌∷◌}
use piaproxy.Base.Result.{Result, ok, err}
use piaproxy.Pia.Client.{Api, Pia, WgSession}
use piaproxy.Pia.Keys.{KeyText}
use piaproxy.Tunnel.{Floats, TunnelError, publish, set_error, failed, up, error}
use piaproxy.Tunnel.Backoff.{retry}
use piaproxy.Tunnel.Connect.{Devices, acquire, bring_up}
use piaproxy.Tunnel.Lifecycle.{
  Sys, Phase, starting, attempting, keyed, serving, finished, waiting, begin, registered, fail,
  serve, wake, Reach, here, next, fail_attempt,
}
use piaproxy.Tunnel.Attempt.{
  AttemptClock, begun, key_added, with_session, with_device, attempt, attempts, next_round,
}

module _ {F : Type 0} (floats : Floats F) where
  Reach-trans : {s t u : Sys F} → Reach floats s t → Reach floats t u → Reach floats s u
  Reach-trans r here = r
  Reach-trans r (next q step) = next (Reach-trans r q) step

  -- A session is served, or the thread waits after the error of the registration or of the device.
  pub data Attempted (registration : Result TunnelError WgSession)
      (device : WgSession → Result TunnelError (ℕ × ℕ)) (s u : Sys F) : Type 0 where
    serves :
        (session : WgSession) (dev net : ℕ)
        → registration ≡ ok session
        → device session ≡ ok (dev, net)
        → u.phase ≡ serving
        → u.tunnel.state ≡ up
        → u.tunnel.session ≡ some session
        → u.tunnel.device ≡ some dev
        → u.tunnel.net_net ≡ some net
        → Attempted registration device s u
    waits :
        (e : TunnelError)
        → (registration ≡ err e)
          ⊎ ((session : WgSession) × (registration ≡ ok session) × (device session ≡ err e))
        → u.phase ≡ waiting (retry s.backoff e).0
        → u.backoff ≡ (retry s.backoff e).1
        → u.tunnel.state ≡ error
        → u.tunnel.last_error ≡ failed e
        → Attempted registration device s u

module _ {F : Type 0} (floats : Floats F) (api : Api) (keys : KeyText) (devices : Devices) where
  with_session-Reach :
      (clock : AttemptClock) (r : Result TunnelError WgSession) (s : Sys F)
      → s.phase ≡ attempting
      → s.ctx_done ≡ false
      → Reach floats s (with_session floats api keys devices clock r s)
  with_session-Reach clock (err e) s p d = next here (fail e (rw p refl) d refl)
  with_session-Reach clock (ok session) s p d =
      brought (bring_up keys devices session).0 (key_added clock.added s)
        (next here (registered clock.added p refl)) refl d
    where
      brought :
          (r : Result TunnelError (ℕ × ℕ)) (t : Sys F)
          → Reach floats s t
          → t.phase ≡ keyed
          → t.ctx_done ≡ false
          → Reach floats s (with_device floats clock.published session r t)
      brought (err e) t q p d = next q (fail e (rw p refl) d refl)
      brought (ok (dev, net)) t q p d = next q (serve session dev net clock.published p refl)

  attempt-Reach :
      (clock : AttemptClock) (p : Pia) (s : Sys F)
      → s.phase ≡ starting
      → s.ctx_done ≡ false
      → Reach floats s (attempt floats api keys devices clock p s).1
  unfolding attempt
  attempt-Reach clock p s start d =
      Reach-trans floats (next here (begin start d refl))
        (with_session-Reach clock (acquire api s.tunnel.cfg p).0 (begun s) refl d)

  with_session-Attempted :
      (clock : AttemptClock) (r : Result TunnelError WgSession) (s : Sys F)
      → Attempted floats r
          (λ session. (bring_up keys devices session).0)
          s
          (with_session floats api keys devices clock r (begun s))
  unfolding fail_attempt set_error publish
  with_session-Attempted clock (err e) s = waits e (inl refl) refl refl refl refl
  with_session-Attempted clock (ok session) s = brought (bring_up keys devices session).0 refl
    where
      t : Sys F
      t = key_added clock.added (begun s)

      brought :
          (r : Result TunnelError (ℕ × ℕ))
          → (bring_up keys devices session).0 ≡ r
          → Attempted floats
              (ok session)
              (λ session. (bring_up keys devices session).0)
              s
              (with_device floats clock.published session r t)
      brought (err e) m = waits e (inr (session, refl, m)) refl refl refl refl
      brought (ok (dev, net)) m = serves session dev net refl m refl refl refl refl refl

  -- An attempt of Run, from the client of the endpoints to the published session, that starts with
  -- a context that is not done is a run of the step relation, and ends in the published session
  -- with the device and netstack of the bring-up, or in the wait that retry gives for the error of
  -- the registration or of the bring-up, with this error shown.
  pub attempt_refines :
      (clock : AttemptClock) (p : Pia) (s : Sys F)
      → s.phase ≡ starting
      → s.ctx_done ≡ false
      → let u = (attempt floats api keys devices clock p s).1 in
        Reach floats s u
        × Attempted floats
            (acquire api s.tunnel.cfg p).0
            (λ session. (bring_up keys devices session).0)
            s
            u
  unfolding attempt
  attempt_refines clock p s start d = (
    attempt-Reach clock p s start d,
    with_session-Attempted clock (acquire api s.tunnel.cfg p).0 s,
  )

  attempt-ctx_done :
      (clock : AttemptClock) (p : Pia) (s : Sys F)
      → (attempt floats api keys devices clock p s).1.ctx_done ≡ s.ctx_done
  unfolding attempt
  attempt-ctx_done clock p s = ended (acquire api s.tunnel.cfg p).0
    where
      ended :
          (r : Result TunnelError WgSession)
          → (with_session floats api keys devices clock r (begun s)).ctx_done ≡ s.ctx_done
      ended (err e) = refl
      ended (ok session) = brought (bring_up keys devices session).0
        where
          brought :
              (r : Result TunnelError (ℕ × ℕ))
              → (with_device floats clock.published session r
                  (key_added clock.added (begun s))).ctx_done
                ≡ s.ctx_done
          brought (err e) = refl
          brought (ok (dev, net)) = refl

  next_round-Reach :
      (s u : Sys F) (go : Sys F → Pia × Sys F) (p : Pia)
      → Reach floats s u
      → u.ctx_done ≡ false
      → ((t : Sys F) → t.phase ≡ starting → t.ctx_done ≡ false → Reach floats t (go t).1)
      → (q : Phase) → u.phase ≡ q
      → Reach floats s (next_round q u go p).1
  next_round-Reach s u go p r d on (waiting delay) e =
      Reach-trans floats (next r (wake delay e refl)) (on (record u { phase = starting }) refl d)
  next_round-Reach s u go p r d on starting e = r
  next_round-Reach s u go p r d on attempting e = r
  next_round-Reach s u go p r d on keyed e = r
  next_round-Reach s u go p r d on serving e = r
  next_round-Reach s u go p r d on finished e = r

  -- Any number of rounds is a run of the step relation.
  pub attempts-Reach :
      (clocks : List AttemptClock) (p : Pia) (s : Sys F)
      → s.phase ≡ starting
      → s.ctx_done ≡ false
      → Reach floats s (attempts floats api keys devices clocks p s).1
  unfolding attempts
  attempts-Reach [] p s start d = here
  attempts-Reach (clock ∷ clocks) p s start d =
      let (p', u) = attempt floats api keys devices clock p s in
      next_round-Reach s u (attempts floats api keys devices clocks p') p'
        (attempt-Reach clock p s start d) (attempt-ctx_done clock p s ∙ d)
        (attempts-Reach clocks p') u.phase refl
