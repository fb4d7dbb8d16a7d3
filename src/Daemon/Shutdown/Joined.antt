-- ===== src/Daemon/Shutdown/Joined.antt =====
-- main ends after all of its proxies.
use piaproxy.Base.{◌≡◌, refl, ◌≢◌, ◌⊎◌, inl, inr, subst, true, List, [], ◌∷◌, ◌++◌, map, All, arith}
use piaproxy.Tunnel.{Floats, CityConfig}
use piaproxy.Tunnel.Lifecycle.{cancel}
use piaproxy.Proxy
use piaproxy.Proxy.{
  Proxy, Stage, polling, ticking, leaving, serving, joining, ended, aborting, aborted, draining,
  launch, tunnel_moves, listener_moves, saw_start, saw_idle, tick, give_up, return_early, bind,
  halt, drained, joined,
}
use piaproxy.Proxy.Safety.{Reach-IsSafe}
use piaproxy.Daemon.Startup.{launch_all, no_opts}
use piaproxy.Daemon.Shutdown.{
  MainStage, Daemon, running, finished, died, shut, control_fails, has_returned, end_context,
  launch_daemon, Step, proxy_moves, signal, shut_down, wait, finish, Reach, here, next,
}
use piaproxy.Daemon.Shutdown.Returned.{IsDown, Step-has_returned, IsDown-has_returned}

module _ {F : Type 0} (floats : Floats F) where
  -- The proxies are those of the cities, in order, each in a state that its own Run reaches.
  abbrev pub Runs : List CityConfig → List (Proxy F) → Type 0
  Runs [] [] = Unit {0}
  Runs (c ∷ cs) (p ∷ ps) = Proxy.Reach floats (launch floats c no_opts) p × Runs cs ps
  Runs [] (p ∷ ps) = ⊥
  Runs (c ∷ cs) [] = ⊥

  pub data GoesOn (d : Daemon F) : Type 0 where
    waits : d.stage ≡ running → GoesOn d
    killed : d.stage ≡ died → GoesOn d
    closes : d.signaled ≡ true → d.control ≡ shut → GoesOn d

  pub record IsJoined (cities : List CityConfig) (d : Daemon F) : Type 0 where
    pub runs : Runs cities d.proxies
    -- main goes on after the signal alone, and shuts the control server first.
    pub ended : GoesOn d
    pub returned : (d.stage ≢ finished) ⊎ All (λ p. has_returned p.stage ≡ true) d.proxies

  Runs-launch : (cities : List CityConfig) → Runs cities (map (λ c. launch floats c no_opts) cities)
  Runs-launch [] = tt
  Runs-launch (c ∷ cs) = (Proxy.here, Runs-launch cs)

  Runs-step :
      (cities : List CityConfig) (before after : List (Proxy F)) (p q : Proxy F)
      → Proxy.Step floats p q
      → Runs cities (before ++ p ∷ after)
      → Runs cities (before ++ q ∷ after)
  Runs-step [] [] after p q step h = h
  Runs-step [] (b ∷ before) after p q step h = h
  Runs-step (c ∷ cs) [] after p q step h = (Proxy.next h.0 step, h.1)
  Runs-step (c ∷ cs) (b ∷ before) after p q step h = (h.0, Runs-step cs before after p q step h.1)

  Runs-end_context :
      (cities : List CityConfig) (ps : List (Proxy F))
      → Runs cities ps
      → Runs cities (map end_context ps)
  Runs-end_context [] [] h = h
  Runs-end_context [] (p ∷ ps) h = h
  Runs-end_context (c ∷ cs) [] h = h
  Runs-end_context (c ∷ cs) (p ∷ ps) h = (
    Proxy.next h.0 (tunnel_moves (record p.tunnel { ctx_done = true }) (cancel refl) refl),
    Runs-end_context cs ps h.1,
  )

  returned-step :
      (before after : List (Proxy F)) (p q : Proxy F)
      → Proxy.Step floats p q
      → All (λ (x : Proxy F). has_returned x.stage ≡ true) (before ++ p ∷ after)
      → All (λ (x : Proxy F). has_returned x.stage ≡ true) (before ++ q ∷ after)
  returned-step [] after p q step h = (Step-has_returned floats step h.0, h.1)
  returned-step (b ∷ before) after p q step h = (h.0, returned-step before after p q step h.1)

  returned-end_context :
      (ps : List (Proxy F))
      → All (λ (x : Proxy F). has_returned x.stage ≡ true) ps
      → All (λ (x : Proxy F). has_returned x.stage ≡ true) (map end_context ps)
  returned-end_context [] h = tt
  returned-end_context (p ∷ ps) h = (h.0, returned-end_context ps h.1)

  -- Past its wait for the signal, main has shut the control server.
  GoesOn-next :
      {d : Daemon F} {st : MainStage}
      → GoesOn d
      → ¬ (d.stage ≡ running)
      → ¬ (d.stage ≡ died)
      → GoesOn (record d { stage = st })
  GoesOn-next (waits at) n k = absurd (n at)
  GoesOn-next (killed at) n k = absurd (k at)
  GoesOn-next (closes sig off) n k = closes sig off

  Step-IsJoined :
      (cities : List CityConfig) {d u : Daemon F}
      → Step floats d u
      → IsJoined cities d
      → IsJoined cities u
  Step-IsJoined cities {d = d} (proxy_moves before after p q alive split step same e) v =
      rw e (record {
        runs = Runs-step cities before after p q step (subst (Runs cities) split v.runs);
        ended = elim v.ended [
          | waits at ↦ waits at
          | killed at ↦ killed at
          | closes sig off ↦ closes sig off
        ];
        returned = elim v.returned [
          | inl not_yet ↦ inl not_yet
          | inr all ↦ inr (
              returned-step before after p q step
                (subst (All (λ (x : Proxy F). has_returned x.stage ≡ true)) split all))
        ];
      })
  Step-IsJoined cities {d = d} (signal alive e) v = rw e (record {
    runs = Runs-end_context cities d.proxies v.runs;
    ended = elim v.ended [
      | waits at ↦ waits at
      | killed at ↦ killed at
      | closes sig off ↦ closes refl off
    ];
    returned = elim v.returned [
      | inl not_yet ↦ inl not_yet
      | inr all ↦ inr (returned-end_context d.proxies all)
    ];
  })
  Step-IsJoined cities (control_fails alive up e) v =
      rw e (record { runs = v.runs; ended = killed refl; returned = inl (λ f. cc) })
  Step-IsJoined cities (shut_down at done e) v =
      rw e (record { runs = v.runs; ended = closes done refl; returned = inl (λ f. cc) })
  Step-IsJoined cities {d = d} (wait at e) v = rw e (record {
    runs = v.runs;
    ended = GoesOn-next v.ended (λ r. cc) (λ r. cc);
    returned = inl (λ f. cc);
  })
  Step-IsJoined cities (finish at all e) v = rw e (record {
    runs = v.runs;
    ended = GoesOn-next v.ended (λ r. cc) (λ r. cc);
    returned = inr all;
  })

  Reach-IsJoined :
      (cities : List CityConfig) (d : Daemon F)
      → Reach floats (launch_daemon floats cities) d
      → IsJoined cities d
  unfolding launch_daemon launch_all
  Reach-IsJoined cities d here = record {
    runs = Runs-launch cities;
    ended = waits refl;
    returned = inl (λ f. cc);
  }
  Reach-IsJoined cities d (next r step) = Step-IsJoined cities step (Reach-IsJoined cities _ r)

  All-IsDown :
      (cities : List CityConfig) (ps : List (Proxy F))
      → Runs cities ps
      → All (λ (p : Proxy F). has_returned p.stage ≡ true) ps
      → All IsDown ps
  All-IsDown [] [] h k = tt
  All-IsDown [] (p ∷ ps) h k = elim h [ ]
  All-IsDown (c ∷ cs) [] h k = elim h [ ]
  All-IsDown (c ∷ cs) (p ∷ ps) h k = (
    IsDown-has_returned floats p p.stage refl (Reach-IsSafe floats c no_opts p h.0) k.0,
    All-IsDown cs ps h.1 k.1,
  )

  closed : (d : Daemon F) → GoesOn d → d.stage ≡ finished → (d.signaled ≡ true) × (d.control ≡ shut)
  closed d (waits at) over = absurd (ground arith)
  closed d (killed at) over = absurd (ground arith)
  closed d (closes sig off) over = (sig, off)

  -- When main has come to its end, after any interleaving of the proxies that it launched, the
  -- signal came before, the control server was shut down, each proxy is in a state that its own
  -- Run reaches from its city, and of each the thread of the tunnel has returned, no session,
  -- device or netstack is held, and no socket or accept loop is left.
  pub main_joins :
      (cities : List CityConfig) (d : Daemon F)
      → Reach floats (launch_daemon floats cities) d
      → d.stage ≡ finished
      → Runs cities d.proxies × (d.signaled ≡ true) × (d.control ≡ shut) × All IsDown d.proxies
  main_joins cities d r over =
      let v = Reach-IsJoined cities d r in
      let (sig, off) = closed d v.ended over in
      (
        v.runs,
        sig,
        off,
        elim v.returned [
          | inl not_yet ↦ absurd (not_yet over)
          | inr all ↦ All-IsDown cities d.proxies v.runs all
        ],
      )
