-- ===== src/Proxy/Stages.antt =====
-- What the listener of a proxy is like in each stage of Run.
use piaproxy.Base.{
  Bool, true, false, Option, none, some, ℕ, ◌≡◌, ◌∙◌, ◌⊎◌, inl, inr, Bytes, contains, [], ◌∷◌,
  arith,
}
use piaproxy.Base.Result.{Result, ok, err}
use piaproxy.Net.{NetError}
use piaproxy.Tunnel.Lifecycle.{finished}
use piaproxy.Socks.Listener
use piaproxy.Socks.Listener.{
  Host, HostEvent, start_called, stop_called, parent_canceled, watcher_runs, loop_ends,
  accept_breaks, serves, new_socks_listener, on_event, on_server, remove, stop,
}
use piaproxy.Proxy.{
  Stage, polling, ticking, leaving, serving, joining, ended, aborting, aborted, draining, Proxy,
  may_happen, loop_over,
}

-- No socket, and no accept loop.
abbrev pub Quiet : Host → Type 0
Quiet h =
    (h.open_sockets ≡ []) × (h.serving ≡ []) × (h.self.started ≡ false) × (h.self.cancel ≡ none)

-- Nothing was ever bound.
abbrev pub Unbound : Host → Type 0
Unbound h = Quiet h × (h.next_id ≡ 0)

-- The sockets after one bind: an accept loop runs while there is an open socket.
abbrev pub OneSocket : Host → Type 0
OneSocket h =
    ((h.open_sockets ≡ []) × (h.serving ≡ []))
    ⊎ (((h.open_sockets ≡ []) ⊎ (h.open_sockets ≡ 0 ∷ [])) × (h.serving ≡ 0 ∷ []))

abbrev pub Started : Host → Type 0
Started h = OneSocket h × (h.self.started ≡ true) × (h.self.cancel ≡ some 0) × (h.next_id ≡ 1)

abbrev pub Stopped : Host → Type 0
Stopped h = OneSocket h × (h.self.started ≡ false) × (h.self.cancel ≡ none)

-- The part of the listener and the context in each stage of Run.
abbrev pub InStage : {F : Type 0} → Stage → Proxy F → Type 0
InStage polling p = Unbound p.listener × (p.attached ≡ true)
InStage ticking p = Unbound p.listener × (p.attached ≡ true)
InStage leaving p = Unbound p.listener × (p.attached ≡ true)
InStage serving p = (Unbound p.listener ⊎ Started p.listener) × (p.attached ≡ true)
InStage (draining none) p = Quiet p.listener × (p.attached ≡ true) × (p.tunnel.ctx_done ≡ true)
InStage (draining (some id)) p =
    (id ≡ 0) × Stopped p.listener × (p.attached ≡ true) × (p.tunnel.ctx_done ≡ true)
InStage joining p = Quiet p.listener × (p.attached ≡ true) × (p.tunnel.ctx_done ≡ true)
InStage ended p =
    Quiet p.listener
    × (p.attached ≡ false)
    × (p.tunnel.ctx_done ≡ true)
    × (p.tunnel.phase ≡ finished)
InStage aborting p = Unbound p.listener × (p.attached ≡ true) × (p.tunnel.ctx_done ≡ true)
InStage aborted p =
    Unbound p.listener
    × (p.attached ≡ true)
    × (p.tunnel.ctx_done ≡ true)
    × (p.tunnel.phase ≡ finished)

pub Quiet-on_event :
    (done : Bool) (e : HostEvent) (h : Host)
    → may_happen done h.next_id e ≡ true
    → Quiet h
    → Quiet (on_event e h) × ((on_event e h).next_id ≡ h.next_id)
unfolding remove
Quiet-on_event done (start_called bound) h may q = absurd (ground arith)
Quiet-on_event done stop_called h may q = absurd (ground arith)
Quiet-on_event done (parent_canceled id) h may q = ground arith
Quiet-on_event done (watcher_runs id) h may q = ground arith
Quiet-on_event done (loop_ends id) h may q = ground arith
Quiet-on_event done (accept_breaks id) h may q = ground arith
Quiet-on_event done (serves id e) h may q = ground arith

pub OneSocket-on_event :
    (done : Bool) (e : HostEvent) (h : Host)
    → may_happen done h.next_id e ≡ true
    → OneSocket h
    → OneSocket (on_event e h)
      × ((on_event e h).self ≡ h.self)
      × ((on_event e h).next_id ≡ h.next_id)
unfolding remove
OneSocket-on_event done (start_called bound) h may q = absurd (ground arith)
OneSocket-on_event done stop_called h may q = absurd (ground arith)
OneSocket-on_event done (parent_canceled id) h may q = ground arith
OneSocket-on_event done (watcher_runs id) h may q = ground arith
OneSocket-on_event done (loop_ends id) h may q = ground arith
OneSocket-on_event done (accept_breaks id) h may q = ground arith
OneSocket-on_event done (serves id e) h may q = ground arith

pub Unbound-on_event :
    (done : Bool) (e : HostEvent) (h : Host)
    → may_happen done h.next_id e ≡ true
    → Unbound h
    → Unbound (on_event e h)
Unbound-on_event done e h may q =
    let (quiet, same) = Quiet-on_event done e h may q.0 in (quiet, same ∙ q.1)

pub Started-on_event :
    (done : Bool) (e : HostEvent) (h : Host)
    → may_happen done h.next_id e ≡ true
    → Started h
    → Started (on_event e h)
Started-on_event done e h may (one, on, mine, n) =
    let (one', self, same) = OneSocket-on_event done e h may one in
    (one', rw self on, rw self mine, same ∙ n)

pub Stopped-on_event :
    (done : Bool) (e : HostEvent) (h : Host)
    → may_happen done h.next_id e ≡ true
    → Stopped h
    → Stopped (on_event e h)
Stopped-on_event done e h may (one, off, mine) =
    let (one', self, same) = OneSocket-on_event done e h may one in
    (one', rw self off, rw self mine)

pub start-Unbound :
    (bound : Result NetError Bytes) (h : Host)
    → Unbound h
    → Unbound (Listener.start bound h).1 ⊎ Started (Listener.start bound h).1
unfolding Listener.start
start-Unbound (err e) h q = inl (ground arith)
start-Unbound (ok a) h q = inr (ground arith)

pub stop-serving :
    {F : Type 0} (p : Proxy F)
    → p.tunnel.ctx_done ≡ true
    → InStage serving p
    → InStage
        (draining p.listener.self.cancel)
        (record p { stage = draining p.listener.self.cancel; listener = stop p.listener })
unfolding stop
stop-serving p done (inl h, a) = ground arith
stop-serving p done (inr h, a) = ground arith

pub drained-Quiet :
    {F : Type 0} (id : Option ℕ) (p : Proxy F)
    → loop_over id p.listener ≡ true
    → InStage (draining id) p
    → InStage joining p
unfolding contains
drained-Quiet none p over h = h
drained-Quiet (some id) p over h = ground arith
