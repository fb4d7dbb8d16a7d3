-- ===== src/Tunnel/Lifecycle/Invariant.antt =====
-- What holds of a tunnel at every moment of its life.
use piaproxy.Base.{
  ℕ, ◌≤◌, ◌≡◌, ◌≢◌, ◌↔◌, refl, subst, ◌⊎◌, inl, inr, true, false, none, arith, Bytes, Option-cases,
}
use piaproxy.Base.Result.{Result, err}
use piaproxy.Pia.Client.{WgSession}
use piaproxy.Net.{NetError, tunnel_down}
use piaproxy.Tunnel.{
  Tunnel, Floats, CityConfig, connecting, error, is_serving, new_tunnel, publish, cleanup,
  set_state, set_error, begin_attempt, dial, TunnelError,
}
use piaproxy.Tunnel.Backoff.{first_backoff, max_backoff, retry, double, cool_down}
use piaproxy.Tunnel.Monitor.{stats_round, health_round}
use piaproxy.Tunnel.Monitor.Health.{SameSession, stats_round-SameSession, health_round-SameSession}
use piaproxy.Tunnel.Lifecycle.{
  Phase, is_attempt, starting, attempting, keyed, serving, finished, waiting, Sys, start,
  fail_attempt, Step, cancel, stop, stop_failed, begin, registered, fail, serve, stats, probe,
  close, wake, stop_waiting, Reach, here, next,
}

-- A session, its device and its netstack are there together.
abbrev pub Holds : {F : Type 0} → Tunnel F → Type 0
Holds t = (is_serving t.state ≡ true) × (t.session ≢ none) × (t.device ≢ none) × (t.net_net ≢ none)

abbrev pub Free : {F : Type 0} → Tunnel F → Type 0
Free t = (is_serving t.state ≡ false) × (t.session ≡ none) × (t.device ≡ none) × (t.net_net ≡ none)

-- The state that goes with each phase.
abbrev pub InPhase : {F : Type 0} → Phase → Tunnel F → Type 0
InPhase serving t = Holds t
InPhase attempting t = Free t × (t.state ≡ connecting)
InPhase keyed t = Free t × (t.state ≡ connecting)
InPhase (waiting delay) t = Free t × (t.state ≡ error) × (first_backoff ≤ delay)
InPhase starting t = Free t
InPhase finished t = Free t

pub record Inv {F : Type 0} (s : Sys F) : Type 0 where
  pub phase : InPhase s.phase s.tunnel
  pub backoff : (first_backoff ≤ s.backoff) × (s.backoff ≤ max_backoff)

module _ {F : Type 0} (floats : Floats F) where
  pub start-Inv : (cfg : CityConfig) → Inv (start floats cfg)
  unfolding start new_tunnel
  start-Inv cfg = record { phase = (refl, refl, refl, refl); backoff = omega arith }

  begin_attempt-Free :
      (t : Tunnel F) → Free t → Free (begin_attempt t) × ((begin_attempt t).state ≡ connecting)
  unfolding begin_attempt set_state
  begin_attempt-Free t (_, a, b, c) = ((refl, a, b, c), refl)

  publish-Holds :
      (session : WgSession) (device stack now : ℕ) (t : Tunnel F)
      → Holds (publish floats session device stack now t)
  unfolding publish
  publish-Holds session device stack now t = ground arith

  fail_attempt-Free :
      (e : TunnelError) (t : Tunnel F)
      → Free t
      → Free (fail_attempt e t) × ((fail_attempt e t).state ≡ error)
  unfolding fail_attempt set_error
  fail_attempt-Free e t (_, a, b, c) = ((refl, a, b, c), refl)

  cleanup-Free : (t : Tunnel F) → Free (cleanup true t)
  unfolding cleanup
  cleanup-Free t = ground arith

  Holds-SameSession : (t u : Tunnel F) → SameSession t u → Holds t → Holds u
  Holds-SameSession t u same (s, a, b, c) =
      ground (arith, same.serving, same.session, same.device, same.net_net)

  retry-bounds :
      (backoff : ℕ) (e : TunnelError)
      → first_backoff ≤ backoff
      → backoff ≤ max_backoff
      → (first_backoff ≤ (retry backoff e).0)
        × ((first_backoff ≤ (retry backoff e).1) × ((retry backoff e).1 ≤ max_backoff))
  unfolding retry double cool_down
  retry-bounds backoff e l h = ground arith

  phase_of : {s : Sys F} (p : Phase) → s.phase ≡ p → Inv s → InPhase p s.tunnel
  phase_of {s = s} p e v = subst (λ q. InPhase q s.tunnel) e v.phase

  to_phase : (q p : Phase) → q ≡ p → (t : Tunnel F) → InPhase p t → InPhase q t
  to_phase q p e t = rw e (λ h. h)

  attempt-Free : (p : Phase) (t : Tunnel F) → is_attempt p ≡ true → InPhase p t → Free t
  attempt-Free attempting t e h = h.0
  attempt-Free keyed t e h = h.0
  attempt-Free starting t e h = h
  attempt-Free serving t e h = absurd (ground arith)
  attempt-Free finished t e h = h
  attempt-Free (waiting delay) t e h = h.0

  pub Step-Inv : {s u : Sys F} → Step floats s u → Inv s → Inv u
  Step-Inv (cancel e) v = rw e (record { phase = v.phase; backoff = v.backoff })
  Step-Inv (stop p d e) v = rw e (record { phase = phase_of starting p v; backoff = v.backoff })
  Step-Inv {s = s} (stop_failed x p d e) v =
      rw e (record { phase = attempt-Free s.phase s.tunnel p v.phase; backoff = v.backoff })
  Step-Inv {s = s} (begin p d e) v =
      rw e (record {
        phase = begin_attempt-Free s.tunnel (phase_of starting p v);
        backoff = v.backoff;
      })
  Step-Inv {s = s} (registered now p e) v =
      rw e (record { phase = phase_of attempting p v; backoff = v.backoff })
  Step-Inv {s = s} (fail x p d e) v =
      let free = fail_attempt-Free x s.tunnel (attempt-Free s.phase s.tunnel p v.phase) in
      let (a, b) = retry-bounds s.backoff x v.backoff.0 v.backoff.1 in
      rw e (record { phase = (free.0, free.1, a); backoff = b })
  Step-Inv {s = s} (serve session device stack now p e) v =
      rw e (record { phase = publish-Holds session device stack now s.tunnel; backoff = v.backoff })
  Step-Inv {s = s} (stats text raw now later p e) v =
      let t = stats_round floats text raw now later s.tunnel in
      let holds =
        Holds-SameSession s.tunnel t (stats_round-SameSession floats text raw now later s.tunnel)
          (phase_of serving p v) in
      rw e (record { phase = to_phase s.phase serving p t holds; backoff = v.backoff })
  Step-Inv {s = s} (probe q now later p e) v =
      let t = health_round q now later s.tunnel in
      let holds =
        Holds-SameSession s.tunnel t (health_round-SameSession floats q now later s.tunnel)
          (phase_of serving p v) in
      rw e (record { phase = to_phase s.phase serving p t holds; backoff = v.backoff })
  Step-Inv {s = s} (close p d e) v =
      rw e (record { phase = cleanup-Free s.tunnel; backoff = v.backoff })
  Step-Inv (wake delay p e) v =
      rw e (record { phase = (phase_of (waiting delay) p v).0; backoff = v.backoff })
  Step-Inv (stop_waiting delay p d e) v =
      rw e (record { phase = (phase_of (waiting delay) p v).0; backoff = v.backoff })

  -- In every reachable state of Run with its loops and a cancellable context, session, device and
  -- netstack are there exactly in the states up and degraded, which are exactly those of a serving
  -- thread, a wait follows an error and is of two seconds or more, and the next backoff is between
  -- two seconds and one minute.
  pub Reach-Inv : (cfg : CityConfig) (s : Sys F) → Reach floats (start floats cfg) s → Inv s
  Reach-Inv cfg s here = start-Inv cfg
  Reach-Inv cfg s (next r step) = Step-Inv step (Reach-Inv cfg _ r)

  pub Inv-serving : (s : Sys F) → Inv s → (Holds s.tunnel × (s.phase ≡ serving)) ⊎ Free s.tunnel
  Inv-serving s v = by_phase s.phase v.phase
    where
      by_phase : (p : Phase) → InPhase p s.tunnel → (Holds s.tunnel × (p ≡ serving)) ⊎ Free s.tunnel
      by_phase serving h = inl (h, refl)
      by_phase attempting h = inr h.0
      by_phase keyed h = inr h.0
      by_phase (waiting delay) h = inr h.0
      by_phase starting h = inr h
      by_phase finished h = inr h

  -- In every reachable state of Run, Dial reports ErrTunnelDown exactly when the state is neither
  -- up nor degraded, if the netstack does not itself return that error.
  pub dial-down_iff :
      (cfg : CityConfig) (s : Sys F)
      → Reach floats (start floats cfg) s
      → {A : Type 0} (connect : ℕ → Bytes → Bytes → Result NetError A) (network addr : Bytes)
      → ((n : ℕ) → connect n network addr ≢ err tunnel_down)
      → (dial connect network addr s.tunnel ≡ err tunnel_down) ↔ (is_serving s.tunnel.state ≡ false)
  unfolding dial
  dial-down_iff cfg s r connect network addr own = elim (Inv-serving s (Reach-Inv cfg s r)) [
    | inl (h, _) ↦ elim (Option-cases s.tunnel.net_net) [
      | inl absent ↦ ground arith
      | inr (n, present) ↦ ground (arith, own n)
    ]
    | inr f ↦ ground arith
  ]
