-- ===== src/Socks/Server/Registry.antt =====
-- The server against the lives of its connections.
use piaproxy.Base.{
  ℕ, suc, ◌≡◌, refl, ◌∙◌, ap, Bool, true, false, none, some, List, [], ◌∷◌, if◌then◌else◌, arith,
  Bytes,
}
use piaproxy.Socks.State.{Conn}
use piaproxy.Socks.Server.{
  Server, new_server, find, register, unregister, ServerEvent, accepted, accept_failed, registers,
  progresses, returns, accept, register_spawned, on_server_event, serve,
}
use piaproxy.Socks.Server.Lives.{
  Stage, absent, gone, pending, running, Lives, pending_of, running_of, set_stage, register_stage,
  born, live, replay, no_lives, Refines, find-id, find-remove, find-update, Distinct-remove,
  Distinct-update,
}

accept-Refines :
    (peer unread : Bytes) (now : ℕ) (s : Server) (v : Lives)
    → Refines s v
    → Refines (accept peer now unread s) (record v {
      next_id = suc v.next_id;
      stage = set_stage v.stage v.next_id (pending (born v peer now unread));
    })
unfolding find
accept-Refines peer unread now s v r = record {
  accepting = r.accepting;
  next_id = ap suc r.next_id;
  spawned = λ id. ground (arith, r.spawned id, r.next_id);
  active = λ id. ground (arith, r.active id, r.fresh v.next_id);
  once = r.once;
  fresh = λ id h. ground (arith, r.fresh id);
}

accepted-Refines :
    (peer unread : Bytes) (now : ℕ) (s : Server) (v : Lives)
    → Refines s v
    → Refines (on_server_event (accepted peer now unread) s) (live (accepted peer now unread) v)
unfolding on_server_event
accepted-Refines peer unread now s v r = both s.accepting v.accepting r.accepting
  where
    grown : Lives
    grown = record v {
      next_id = suc v.next_id;
      stage = set_stage v.stage v.next_id (pending (born v peer now unread));
    }

    both :
        (b c : Bool)
        → b ≡ c
        → Refines (if b then accept peer now unread s else s) (if c then grown else v)
    both true true e = accept-Refines peer unread now s v r
    both false false e = r
    both true false e = absurd (ground arith)
    both false true e = absurd (ground arith)

-- A change of a stage that leaves it as it was.
same_stage-Refines :
    (id : ℕ) (st : Stage) (s : Server) (v : Lives)
    → Refines s v
    → st ≡ v.stage id
    → Refines s (record v { stage = set_stage v.stage id st })
same_stage-Refines id st s v r e = record {
  accepting = r.accepting;
  next_id = r.next_id;
  spawned = λ j. ground (arith, r.spawned j);
  active = λ j. ground (arith, r.active j);
  once = r.once;
  fresh = λ j h. ground (arith, r.fresh j h);
}

registers-Refines :
    (id : ℕ) (s : Server) (v : Lives)
    → Refines s v
    → Refines (on_server_event (registers id) s) (live (registers id) v)
unfolding on_server_event register find
registers-Refines id s v r = at_stage (v.stage id) refl
  where
    none_spawned : find id s.spawned ≡ none → register_spawned (find id s.spawned) s ≡ s
    none_spawned e = rw e

    at_stage :
        (st : Stage)
        → v.stage id ≡ st
        → Refines
            (register_spawned (find id s.spawned) s)
            (record v { stage = set_stage v.stage id (register_stage (v.stage id)) })
    at_stage absent e =
        rw (none_spawned (r.spawned id ∙ ap pending_of e))
          (same_stage-Refines id (register_stage (v.stage id)) s v r (ground arith))
    at_stage gone e =
        rw (none_spawned (r.spawned id ∙ ap pending_of e))
          (same_stage-Refines id (register_stage (v.stage id)) s v r (ground arith))
    at_stage (running l) e =
        rw (none_spawned (r.spawned id ∙ ap pending_of e))
          (same_stage-Refines id (register_stage (v.stage id)) s v r (ground arith))
    at_stage (pending l) e =
        let there : find id s.spawned ≡ some l = r.spawned id ∙ ap pending_of e in
        let key = find-id id s.spawned l there in
        let new : find l.id s.active_conns ≡ none = rw key (r.active id ∙ ap running_of e) in
        rw there (
          rw (new, register_spawned, register)
            (record {
              accepting = r.accepting;
              next_id = r.next_id;
              spawned = λ j. ground (arith, find-remove l.id j s.spawned, r.spawned j);
              active = λ j. ground (arith, r.active j);
              once = (new, r.once);
              fresh = λ j h. ground (arith, r.fresh j h);
            }))

progresses-Refines :
    (id : ℕ) (c : Conn) (s : Server) (v : Lives)
    → Refines s v
    → Refines (on_server_event (progresses id c) s) (live (progresses id c) v)
unfolding on_server_event
progresses-Refines id c s v r = record {
  accepting = r.accepting;
  next_id = r.next_id;
  spawned = λ j. ground (arith, r.spawned j);
  active = λ j. ground (arith, find-update id j c s.active_conns, r.active j);
  once = Distinct-update id c s.active_conns r.once;
  fresh = λ j h. ground (arith, r.fresh j h);
}

returns-Refines :
    (id : ℕ) (s : Server) (v : Lives)
    → Refines s v
    → Refines (on_server_event (returns id) s) (live (returns id) v)
unfolding on_server_event unregister
returns-Refines id s v r = record {
  accepting = r.accepting;
  next_id = r.next_id;
  spawned = λ j. ground (arith, r.spawned j);
  active = λ j. ground (arith, find-remove id j s.active_conns, r.active j);
  once = Distinct-remove id s.active_conns r.once;
  fresh = λ j h. ground (arith, r.fresh j h);
}

live-Refines :
    (e : ServerEvent) (s : Server) (v : Lives)
    → Refines s v
    → Refines (on_server_event e s) (live e v)
live-Refines (accepted peer now unread) s v r = accepted-Refines peer unread now s v r
live-Refines accept_failed s v r =
    unfold on_server_event in
    record {
      accepting = refl;
      next_id = r.next_id;
      spawned = r.spawned;
      active = r.active;
      once = r.once;
      fresh = r.fresh;
    }
live-Refines (registers id) s v r = registers-Refines id s v r
live-Refines (progresses id c) s v r = progresses-Refines id c s v r
live-Refines (returns id) s v r = returns-Refines id s v r

from-Refines :
    (es : List ServerEvent) (s : Server) (v : Lives)
    → Refines s v
    → Refines (serve es s) (replay es v)
unfolding serve
from-Refines [] s v r = r
from-Refines (e ∷ es) s v r =
    from-Refines es (on_server_event e s) (live e v) (live-Refines e s v r)

-- Under every sequence of accepted connections, an end of the accept loop, and steps of the
-- goroutines, the server has exactly the connections registered that run, each once and with its
-- present state, and a connection goes from its accept through its registration to its return and
-- is never registered again.
pub serve-Refines : (es : List ServerEvent) → Refines (serve es new_server) (replay es no_lives)
unfolding find
serve-Refines es = from-Refines es new_server no_lives (record {
  accepting = refl;
  next_id = refl;
  spawned = λ id. refl;
  active = λ id. refl;
  once = tt;
  fresh = λ id h. refl;
})
