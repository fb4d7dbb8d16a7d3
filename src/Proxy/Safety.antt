-- ===== src/Proxy/Safety.antt =====
-- What holds of a proxy at every moment of its run.
use piaproxy.Base.{true, none, some, ◌≡◌, ◌≤◌, refl, ap, subst, inl, inr, arith}
use piaproxy.Tunnel.{Floats, CityConfig}
use piaproxy.Tunnel.Lifecycle
use piaproxy.Tunnel.Lifecycle.{
  Sys, Phase, starting, attempting, keyed, waiting, finished, cancel, stop_failed, begin,
  registered, fail, serve, stats, probe, close, wake, stop_waiting,
}
use piaproxy.Tunnel.Lifecycle.Invariant
use piaproxy.Tunnel.Lifecycle.Stopping.{moves_left, Step-ctx_done, Step-moves_left}
use piaproxy.Socks.Listener.Sockets
use piaproxy.Socks.Listener.{SocksOpts, HostEvent, new_socks_listener, on_event}
use piaproxy.Proxy.{
  Stage, polling, ticking, leaving, serving, joining, ended, aborting, aborted, draining, Proxy,
  launch, may_happen, Step, tunnel_moves, listener_moves, saw_start, saw_idle, tick, give_up,
  return_early, bind, halt, drained, joined, Reach, here, next,
}
use piaproxy.Proxy.Stages.{
  InStage, Quiet-on_event, Unbound-on_event, Started-on_event, Stopped-on_event, start-Unbound,
  stop-serving, drained-Quiet,
}

pub record IsSafe {F : Type 0} (p : Proxy F) : Type 0 where
  pub tunnel : Invariant.Inv p.tunnel
  pub listener : Sockets.Inv p.listener
  pub stage : InStage p.stage p

finished-moves_left : (p : Phase) → moves_left p ≤ 0 → p ≡ finished
finished-moves_left finished h = refl
finished-moves_left starting h = absurd (omega arith)
finished-moves_left attempting h = absurd (omega arith)
finished-moves_left keyed h = absurd (omega arith)
finished-moves_left Phase.serving h = absurd (omega arith)
finished-moves_left (waiting _) h = absurd (omega arith)

module _ {F : Type 0} (floats : Floats F) where
  Step-finished :
      {s t : Sys F}
      → Lifecycle.Step floats s t
      → s.ctx_done ≡ true
      → s.phase ≡ finished
      → t.phase ≡ finished
  Step-finished {s = s} {t = t} step d e =
      finished-moves_left t.phase (omega (arith, Step-moves_left floats step d, ap moves_left e))

  InStage-tunnel :
      (st : Stage) (p : Proxy F) (t : Sys F)
      → Lifecycle.Step floats p.tunnel t
      → InStage st p
      → InStage st (record p { tunnel = t })
  InStage-tunnel polling p t step h = h
  InStage-tunnel ticking p t step h = h
  InStage-tunnel leaving p t step h = h
  InStage-tunnel serving p t step h = h
  InStage-tunnel (draining none) p t step h = (h.0, h.1, Step-ctx_done floats step h.2)
  InStage-tunnel (draining (some id)) p t step h = (h.0, h.1, h.2, Step-ctx_done floats step h.3)
  InStage-tunnel joining p t step h = (h.0, h.1, Step-ctx_done floats step h.2)
  InStage-tunnel ended p t step h =
      (h.0, h.1, Step-ctx_done floats step h.2, Step-finished step h.2 h.3)
  InStage-tunnel aborting p t step h = (h.0, h.1, Step-ctx_done floats step h.2)
  InStage-tunnel aborted p t step h =
      (h.0, h.1, Step-ctx_done floats step h.2, Step-finished step h.2 h.3)

  InStage-listener :
      (st : Stage) (p : Proxy F) (e : HostEvent)
      → may_happen p.tunnel.ctx_done p.listener.next_id e ≡ true
      → InStage st p
      → InStage st (record p { listener = on_event e p.listener })
  InStage-listener polling p e may h =
      (Unbound-on_event p.tunnel.ctx_done e p.listener may h.0, h.1)
  InStage-listener ticking p e may h =
      (Unbound-on_event p.tunnel.ctx_done e p.listener may h.0, h.1)
  InStage-listener leaving p e may h =
      (Unbound-on_event p.tunnel.ctx_done e p.listener may h.0, h.1)
  InStage-listener serving p e may (inl h, a) =
      (inl (Unbound-on_event p.tunnel.ctx_done e p.listener may h), a)
  InStage-listener serving p e may (inr h, a) =
      (inr (Started-on_event p.tunnel.ctx_done e p.listener may h), a)
  InStage-listener (draining none) p e may h =
      ((Quiet-on_event p.tunnel.ctx_done e p.listener may h.0).0, h.1, h.2)
  InStage-listener (draining (some id)) p e may h =
      (h.0, Stopped-on_event p.tunnel.ctx_done e p.listener may h.1, h.2, h.3)
  InStage-listener joining p e may h =
      ((Quiet-on_event p.tunnel.ctx_done e p.listener may h.0).0, h.1, h.2)
  InStage-listener ended p e may h =
      ((Quiet-on_event p.tunnel.ctx_done e p.listener may h.0).0, h.1, h.2, h.3)
  InStage-listener aborting p e may h =
      (Unbound-on_event p.tunnel.ctx_done e p.listener may h.0, h.1, h.2)
  InStage-listener aborted p e may h =
      (Unbound-on_event p.tunnel.ctx_done e p.listener may h.0, h.1, h.2, h.3)

  pub stage_of : {p : Proxy F} (st : Stage) → p.stage ≡ st → IsSafe p → InStage st p
  stage_of {p = p} st e v = subst (λ q. InStage q p) e v.stage

  pub Step-IsSafe : {p q : Proxy F} → Step floats p q → IsSafe p → IsSafe q
  Step-IsSafe {p = p} (tunnel_moves t step e) v = rw e (record {
    tunnel = Invariant.Step-Inv floats step v.tunnel;
    listener = v.listener;
    stage = InStage-tunnel p.stage p t step v.stage;
  })
  Step-IsSafe {p = p} (listener_moves event may e) v = rw e (record {
    tunnel = v.tunnel;
    listener = Sockets.on_event-Inv event p.listener v.listener;
    stage = InStage-listener p.stage p event may v.stage;
  })
  Step-IsSafe (saw_start at left e) v =
      rw e (record { tunnel = v.tunnel; listener = v.listener; stage = stage_of polling at v })
  Step-IsSafe (saw_idle at idle_still e) v =
      rw e (record { tunnel = v.tunnel; listener = v.listener; stage = stage_of polling at v })
  Step-IsSafe (tick at e) v =
      rw e (record { tunnel = v.tunnel; listener = v.listener; stage = stage_of ticking at v })
  Step-IsSafe (give_up at done e) v =
      let (quiet, attached) = stage_of ticking at v in
      rw e (record { tunnel = v.tunnel; listener = v.listener; stage = (quiet, attached, done) })
  Step-IsSafe (return_early at over e) v =
      let (quiet, attached, done) = stage_of aborting at v in
      rw e
        (record { tunnel = v.tunnel; listener = v.listener; stage = (quiet, attached, done, over) })
  Step-IsSafe {p = p} (bind bound at e) v =
      let (quiet, attached) = stage_of leaving at v in
      rw e (record {
        tunnel = v.tunnel;
        listener = Sockets.start-Inv bound p.listener v.listener;
        stage = (start-Unbound bound p.listener quiet, attached);
      })
  Step-IsSafe {p = p} (halt at done e) v = rw e (record {
    tunnel = v.tunnel;
    listener = Sockets.stop-Inv p.listener v.listener;
    stage = stop-serving p done (stage_of serving at v);
  })
  Step-IsSafe {p = p} (drained id at over e) v = rw e (record {
    tunnel = v.tunnel;
    listener = v.listener;
    stage = drained-Quiet id p over (stage_of (draining id) at v);
  })
  Step-IsSafe (joined at over e) v =
      let (quiet, attached, done) = stage_of joining at v in
      rw e (record { tunnel = v.tunnel; listener = v.listener; stage = (quiet, refl, done, over) })

  launch-IsSafe : (cfg : CityConfig) (opts : SocksOpts) → IsSafe (launch floats cfg opts)
  unfolding launch new_socks_listener
  launch-IsSafe cfg opts = record {
    tunnel = Invariant.start-Inv floats cfg;
    listener = Sockets.new-Inv cfg.listen;
    stage = (((refl, refl, refl, refl), refl), refl);
  }

  pub from-IsSafe : {p q : Proxy F} → Reach floats p q → IsSafe p → IsSafe q
  from-IsSafe here v = v
  from-IsSafe (next r step) v = Step-IsSafe step (from-IsSafe r v)

  -- In every reachable state of a proxy, with Run, the goroutines of tunnel and listener and a
  -- context that may end at any moment, the tunnel and the listener keep their invariants, no
  -- socket was ever bound before Run saw the tunnel leave the state idle or after it gave up, at
  -- most one is open afterwards, and once Run has returned no socket is open, no accept loop runs,
  -- and the thread of the tunnel has returned.
  pub Reach-IsSafe :
      (cfg : CityConfig) (opts : SocksOpts) (p : Proxy F)
      → Reach floats (launch floats cfg opts) p
      → IsSafe p
  Reach-IsSafe cfg opts p r = from-IsSafe r (launch-IsSafe cfg opts)
