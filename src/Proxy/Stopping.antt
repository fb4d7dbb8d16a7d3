-- ===== src/Proxy/Stopping.antt =====
-- How Run of a proxy returns once its context is done.
use piaproxy.Base.{ℕ, ◌+◌, ◌≤◌, ◌<◌, true, ◌≡◌, ◌⊎◌, inl, inr, arith}
use piaproxy.Tunnel.{Floats}
use piaproxy.Tunnel.Lifecycle.Stopping as TunnelStopping
use piaproxy.Tunnel.Lifecycle.Stopping.{moves_left, Step-moves_left}
use piaproxy.Socks.Listener
use piaproxy.Socks.Listener.{
  Host, HostEvent, start_called, stop_called, parent_canceled, watcher_runs, loop_ends,
  accept_breaks, serves, remove, end_loop,
}
use piaproxy.Proxy.{
  Stage, polling, ticking, leaving, serving, joining, ended, aborting, aborted, draining, Proxy,
  Step, tunnel_moves, listener_moves, saw_start, saw_idle, tick, give_up, return_early, bind, halt,
  drained, joined,
}
use piaproxy.Socks.Listener.Sockets
use piaproxy.Socks.Listener.Sockets.{IsOwned, canceled-only}
use piaproxy.Proxy.Draining.{left, left-le, bind-left, stop-left}

abbrev pub stage_rank : Stage → ℕ
stage_rank ended = 0
stage_rank aborted = 0
stage_rank joining = 1
stage_rank aborting = 1
stage_rank (draining _) = 2
stage_rank serving = 3
stage_rank leaving = 6
stage_rank ticking = 6
stage_rank polling = 7

-- How far Run is from its return: where its own thread is, what the thread of the tunnel has left,
-- the sockets that are open, and the accept loops that run.
abbrev pub rank : {F : Type 0} → Proxy F → ℕ
rank p = stage_rank p.stage + moves_left p.tunnel.phase + left p.listener

-- Run has returned.
abbrev pub Returned : {F : Type 0} → Proxy F → Type 0
Returned p = (p.stage ≡ ended) ⊎ (p.stage ≡ aborted)

module _ {F : Type 0} (floats : Floats F) where
  -- A round of waitForTunnelStart that has not seen the end of the context.
  abbrev pub IsTick : {p q : Proxy F} → Step floats p q → Type 0
  IsTick (tick _ _) = Unit {0}
  IsTick _ = ⊥

  pub Step-rank :
      {p q : Proxy F} (step : Step floats p q)
      → p.tunnel.ctx_done ≡ true
      → (rank q ≤ rank p) ⊎ IsTick step
  Step-rank {p = p} (tunnel_moves t step e) d =
      inl (rw e (omega (arith, Step-moves_left floats step d)))
  Step-rank {p = p} (listener_moves event may e) d =
      inl (rw e (omega (arith, left-le p.tunnel.ctx_done event p.listener may)))
  Step-rank (saw_start at left e) d = inl (rw (e, at) (omega arith))
  Step-rank (saw_idle at still e) d = inl (rw (e, at) (omega arith))
  Step-rank (tick at e) d = inr tt
  Step-rank (give_up at done e) d = inl (rw (e, at) (omega arith))
  Step-rank (return_early at over e) d = inl (rw (e, at) (omega arith))
  Step-rank {p = p} (bind bound at e) d =
      inl (rw (e, at) (omega (arith, bind-left bound p.listener)))
  Step-rank {p = p} (halt at done e) d = inl (rw (e, at) (omega (arith, stop-left p.listener)))
  Step-rank (drained id at over e) d = inl (rw (e, at) (omega arith))
  Step-rank (joined at over e) d = inl (rw (e, at) (omega arith))

  -- A step of the program's own, which waits for no timer, no answer and no client: one of Run after
  -- it has seen the end of the context, one of the tunnel's thread for the same reason, the goroutine
  -- that closes the socket of a cancelled context, or the accept loop that finds its socket closed.
  abbrev pub IsPrompt : {p q : Proxy F} → Step floats p q → Type 0
  IsPrompt (tunnel_moves _ step _) = TunnelStopping.IsPrompt floats step
  IsPrompt (listener_moves (watcher_runs _) _ _) = Unit {0}
  IsPrompt (listener_moves (loop_ends _) _ _) = Unit {0}
  IsPrompt (listener_moves _ _ _) = ⊥
  IsPrompt (tick _ _) = ⊥
  IsPrompt _ = Unit {0}

  -- Such a step is possible and brings Run closer to its return.
  abbrev pub Lowers : Proxy F → Type 0
  Lowers p = (q : Proxy F) × (step : Step floats p q) × IsPrompt step × (rank q < rank p)
