-- ===== src/Daemon/Shutdown/Returned.antt =====
-- A proxy whose Run has returned stays so, and holds nothing.
use piaproxy.Base.{◌≡◌, ap, subst, true, arith}
use piaproxy.Tunnel.{Floats}
use piaproxy.Tunnel.Lifecycle
use piaproxy.Tunnel.Lifecycle.{cancel}
use piaproxy.Tunnel.Lifecycle.Invariant.{Free, InPhase}
use piaproxy.Proxy
use piaproxy.Proxy.{
  Proxy, Stage, polling, ticking, leaving, serving, joining, ended, aborting, aborted, draining,
  launch, tunnel_moves, listener_moves, saw_start, saw_idle, tick, give_up, return_early, bind,
  halt, drained, joined,
}
use piaproxy.Proxy.Stages.{InStage, Quiet}
use piaproxy.Proxy.Safety.{IsSafe}
use piaproxy.Daemon.Shutdown.{has_returned}

-- A proxy whose Run has returned: its tunnel holds no session, device or netstack, its thread has
-- returned, and no socket or accept loop of its listener is left.
pub record IsDown {F : Type 0} (p : Proxy F) : Type 0 where
  pub free : Free p.tunnel.tunnel
  pub thread : p.tunnel.phase ≡ Lifecycle.finished
  pub listener : Quiet p.listener

-- Where Run cannot go on from.
pub Step-has_returned :
    {F : Type 0} (floats : Floats F) {p q : Proxy F}
    → Proxy.Step floats p q
    → has_returned p.stage ≡ true
    → has_returned q.stage ≡ true
Step-has_returned floats (tunnel_moves t step e) h = rw e h
Step-has_returned floats (listener_moves event may e) h = rw e h
Step-has_returned floats (saw_start at left e) h = absurd (ground (arith, ap has_returned at))
Step-has_returned floats (saw_idle at still e) h = absurd (ground (arith, ap has_returned at))
Step-has_returned floats (tick at e) h = absurd (ground (arith, ap has_returned at))
Step-has_returned floats (give_up at done e) h = absurd (ground (arith, ap has_returned at))
Step-has_returned floats (return_early at over e) h = absurd (ground (arith, ap has_returned at))
Step-has_returned floats (bind bound at e) h = absurd (ground (arith, ap has_returned at))
Step-has_returned floats (halt at done e) h = absurd (ground (arith, ap has_returned at))
Step-has_returned floats (drained id at over e) h = absurd (ground (arith, ap has_returned at))
Step-has_returned floats (joined at over e) h = absurd (ground (arith, ap has_returned at))

module _ {F : Type 0} (floats : Floats F) where
  IsDown-finished :
      (p : Proxy F) → IsSafe p → p.tunnel.phase ≡ Lifecycle.finished → Quiet p.listener → IsDown p
  IsDown-finished p v over quiet = record {
    free = subst (λ ph. InPhase ph p.tunnel.tunnel) over v.tunnel.phase;
    thread = over;
    listener = quiet;
  }

  pub IsDown-has_returned :
      (p : Proxy F) (st : Stage) → p.stage ≡ st → IsSafe p → has_returned st ≡ true → IsDown p
  IsDown-has_returned p ended e v h =
      let (quiet, off, done, over) = subst (λ st. InStage st p) e v.stage in
      IsDown-finished p v over quiet
  IsDown-has_returned p aborted e v h =
      let (unbound, on, done, over) = subst (λ st. InStage st p) e v.stage in
      IsDown-finished p v over unbound.0
  IsDown-has_returned p polling e v h = cc
  IsDown-has_returned p ticking e v h = cc
  IsDown-has_returned p leaving e v h = cc
  IsDown-has_returned p serving e v h = cc
  IsDown-has_returned p joining e v h = cc
  IsDown-has_returned p aborting e v h = cc
  IsDown-has_returned p (draining _) e v h = cc
