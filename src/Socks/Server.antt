-- ===== src/Socks/Server.antt =====
-- The server of socks5.go: the accept loop of Serve, the goroutine of each connection, and the
-- registry behind Snapshot. A connection is named by the number of its Accept, for the pointer to it.
pub mod Lives
pub mod Registry
use piaproxy.Base.{
  ℕ, suc, ◌==◌, Bool, true, false, Option, none, some, List, [], ◌∷◌, if◌then◌else◌, length, map,
  Bytes,
}
use piaproxy.Socks.State.{Conn}

-- A `Conn` with the fields that Serve fills.
pub record Live : Type 0 where
  pub id : ℕ
  pub peer : Bytes
  pub start_ms : ℕ
  pub conn : Conn

pub record ConnInfo : Type 0 where
  pub peer : Bytes
  pub dest : Bytes
  pub method : Bytes
  pub started_ms : ℕ
  pub rx_bytes : ℕ
  pub tx_bytes : ℕ

-- `spawned` holds the connections whose goroutine has not registered them yet, and `active_conns` is
-- the map, by its keys.
pub record Server : Type 0 where
  pub accepting : Bool
  pub next_id : ℕ
  pub spawned : List Live
  pub active_conns : List Live

abbrev pub new_server : Server
new_server = record { accepting = true; next_id = 0; spawned = []; active_conns = [] }

-- A connection whose client will send `unread`.
abbrev pub new_conn : Bytes → Conn
new_conn unread = record {
  unread = unread;
  written = [];
  uploaded = [];
  dials = [];
  request = none;
  dest = [];
  method = [];
  rx_bytes = 0;
  tx_bytes = 0;
  udp_client_addr = none;
  targets = [];
  to_targets = [];
  to_client = [];
  listening = false;
}

unfoldable pub find : ℕ → List Live → Option Live
find id [] = none
find id (l ∷ ls) = if l.id == id then some l else find id ls

-- `delete` of a map.
unfoldable pub remove : ℕ → List Live → List Live
remove id [] = []
remove id (l ∷ ls) = let rest = remove id ls in if l.id == id then rest else l ∷ rest

-- The connection that a key points to changes.
unfoldable pub update : ℕ → Conn → List Live → List Live
update id c [] = []
update id c (l ∷ ls) =
    let rest = update id c ls in if l.id == id then record l { conn = c } ∷ rest else l ∷ rest

unfoldable pub register : Live → Server → Server
register l s = elim (find l.id s.active_conns) [
  | some _ ↦ s
  | none ↦ record s { active_conns = l ∷ s.active_conns }
]

unfoldable pub unregister : ℕ → Server → Server
unregister id s = record s { active_conns = remove id s.active_conns }

unfoldable pub info : Live → ConnInfo
info l = record {
  peer = l.peer;
  dest = l.conn.dest;
  method = l.conn.method;
  started_ms = l.start_ms;
  rx_bytes = l.conn.rx_bytes;
  tx_bytes = l.conn.tx_bytes;
}

-- `Snapshot`; the order of a map is any, and here that of the registrations.
unfoldable pub snapshot : Server → List ConnInfo
snapshot s = map info s.active_conns

-- Accept returns a connection or an error, which ends the loop; and what the goroutine of a
-- connection does: it registers it, runs it, and unregisters it when Run has returned.
pub data ServerEvent : Type 0 where
  accepted : Bytes → ℕ → Bytes → ServerEvent
  accept_failed : ServerEvent
  registers : ℕ → ServerEvent
  progresses : ℕ → Conn → ServerEvent
  returns : ℕ → ServerEvent

abbrev pub accept : Bytes → ℕ → Bytes → Server → Server
accept peer now unread s = record s {
  next_id = suc s.next_id;
  spawned =
      record { id = s.next_id; peer = peer; start_ms = now; conn = new_conn unread } ∷ s.spawned;
}

abbrev pub register_spawned : Option Live → Server → Server
register_spawned none s = s
register_spawned (some l) s = register l (record s { spawned = remove l.id s.spawned })

unfoldable pub on_server_event : ServerEvent → Server → Server
on_server_event (accepted peer now unread) s = if s.accepting then accept peer now unread s else s
on_server_event accept_failed s = record s { accepting = false }
on_server_event (registers id) s = register_spawned (find id s.spawned) s
on_server_event (progresses id c) s = record s { active_conns = update id c s.active_conns }
on_server_event (returns id) s = unregister id s

-- `Serve` and its goroutines.
unfoldable pub serve : List ServerEvent → Server → Server
serve [] s = s
serve (e ∷ es) s = serve es (on_server_event e s)
