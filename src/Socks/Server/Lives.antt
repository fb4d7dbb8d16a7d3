-- ===== src/Socks/Server/Lives.antt =====
-- The lives of the connections of a server, as the registry promises them.
use piaproxy.Base.{
  ℕ, suc, ◌≤◌, ◌==◌, ◌≡◌, Bool, true, false, Option, none, some, List, [], ◌∷◌, if◌then◌else◌,
  arith, Bytes,
}
use piaproxy.Socks.State.{Conn}
use piaproxy.Socks.Server.{
  Live, Server, new_conn, find, remove, update, ServerEvent, accepted, accept_failed, registers,
  progresses, returns,
}

-- The life of one connection.
pub data Stage : Type 0 where
  absent gone : Stage
  pending running : Live → Stage

-- What the server promises: a function from the connections to their stages.
pub record Lives : Type 0 where
  pub accepting : Bool
  pub next_id : ℕ
  pub stage : ℕ → Stage

abbrev pub pending_of : Stage → Option Live
pending_of (pending l) = some l
pending_of _ = none

abbrev pub running_of : Stage → Option Live
running_of (running l) = some l
running_of _ = none

abbrev pub set_stage : (ℕ → Stage) → ℕ → Stage → ℕ → Stage
set_stage f id st j = if id == j then st else f j

abbrev pub register_stage : Stage → Stage
register_stage (pending l) = running l
register_stage st = st

abbrev pub progress_stage : Conn → Stage → Stage
progress_stage c (running l) = running (record l { conn = c })
progress_stage c st = st

abbrev pub return_stage : Stage → Stage
return_stage (running l) = gone
return_stage st = st

abbrev pub born : Lives → Bytes → ℕ → Bytes → Live
born v peer now unread = record {
  id = v.next_id;
  peer = peer;
  start_ms = now;
  conn = new_conn unread;
}

abbrev pub live : ServerEvent → Lives → Lives
live (accepted peer now unread) v =
    if v.accepting
    then record v {
      next_id = suc v.next_id;
      stage = set_stage v.stage v.next_id (pending (born v peer now unread));
    }
    else v
live accept_failed v = record v { accepting = false }
live (registers id) v = record v { stage = set_stage v.stage id (register_stage (v.stage id)) }
live (progresses id c) v = record v { stage = set_stage v.stage id (progress_stage c (v.stage id)) }
live (returns id) v = record v { stage = set_stage v.stage id (return_stage (v.stage id)) }

abbrev pub replay : List ServerEvent → Lives → Lives
replay [] v = v
replay (e ∷ es) v = replay es (live e v)

abbrev pub no_lives : Lives
no_lives = record { accepting = true; next_id = 0; stage = λ id. absent }

-- No connection is registered twice.
abbrev pub Distinct : List Live → Type 0
Distinct [] = Unit {0}
Distinct (l ∷ ls) = (find l.id ls ≡ none) × Distinct ls

pub record Refines (s : Server) (v : Lives) : Type 0 where
  pub accepting : s.accepting ≡ v.accepting
  pub next_id : s.next_id ≡ v.next_id
  pub spawned : (id : ℕ) → find id s.spawned ≡ pending_of (v.stage id)
  pub active : (id : ℕ) → find id s.active_conns ≡ running_of (v.stage id)
  pub once : Distinct s.active_conns
  pub fresh : (id : ℕ) → v.next_id ≤ id → v.stage id ≡ absent

pub find-id : (id : ℕ) (ls : List Live) (l : Live) → find id ls ≡ some l → l.id ≡ id
unfolding find
find-id id [] l e = absurd (ground arith)
find-id id (x ∷ ls) l e = ground (arith, find-id id ls l)

pub find-remove :
    (i j : ℕ) (ls : List Live) → find j (remove i ls) ≡ (if i == j then none else find j ls)
unfolding find remove
find-remove i j [] = ground arith
find-remove i j (l ∷ ls) = ground (arith, find-remove i j ls)

abbrev pub with_conn : Conn → Option Live → Option Live
with_conn c none = none
with_conn c (some l) = some (record l { conn = c })

pub find-update :
    (i j : ℕ) (c : Conn) (ls : List Live)
    → find j (update i c ls) ≡ (if i == j then with_conn c (find j ls) else find j ls)
unfolding find update
find-update i j c [] = ground arith
find-update i j c (l ∷ ls) = ground (arith, find-update i j c ls)

pub Distinct-remove : (i : ℕ) (ls : List Live) → Distinct ls → Distinct (remove i ls)
unfolding remove
Distinct-remove i [] d = tt
Distinct-remove i (l ∷ ls) d = ground (arith, Distinct-remove i ls d.1, find-remove i l.id ls)

pub Distinct-update : (i : ℕ) (c : Conn) (ls : List Live) → Distinct ls → Distinct (update i c ls)
unfolding update
Distinct-update i c [] d = tt
Distinct-update i c (l ∷ ls) d = ground (arith, Distinct-update i c ls d.1, find-update i l.id c ls)
