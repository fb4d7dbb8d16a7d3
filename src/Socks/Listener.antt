-- ===== src/Socks/Listener.antt =====
-- socks_listener.go: the listener that Start binds and Stop closes, its goroutines, and the dialer
-- that it hands to the server.
pub mod Sockets
use piaproxy.Base.{
  length, ltb, ℕ, suc, ◌==◌, not, Bool, true, false, Option, none, some, List, [], ◌∷◌,
  if◌then◌else◌, Bytes, contains, codes,
}
use piaproxy.Base.Result.{Result, ok, err}
use piaproxy.Socks.Server
use piaproxy.Socks.Server.{
  Server, ConnInfo, ServerEvent, accept_failed, new_server, on_server_event,
}
use piaproxy.Net.{NetError, IpText, join_host_port}

-- `SocksOpts`, without its logger.
pub record SocksOpts : Type 0 where
  pub username : Bytes
  pub password : Bytes
  pub dns_resolver_ip : Option Bytes

-- A bound socket; its number also names its server, context, and accept loop.
pub record Socket : Type 0 where
  pub id : ℕ
  pub bound_addr : Bytes

-- The fields that Start and Stop change; the server is named by the number of its socket, and the
-- channel `done` is the one of the same number in `serving` of the host.
pub record SocksListener : Type 0 where
  pub addr : Bytes
  pub listener : Option Socket
  pub server : Option ℕ
  pub cancel : Option ℕ
  pub started : Bool
  pub start_err : Option NetError

-- The listener among the sockets, contexts and accept loops that its calls of Start have made.
pub record Host : Type 0 where
  pub self : SocksListener
  pub next_id : ℕ
  pub open_sockets : Bytes
  pub canceled : Bytes
  pub serving : Bytes
  pub servers : ℕ → Server

-- `NewSocksListener`.
unfoldable pub new_socks_listener : Bytes → Host
new_socks_listener addr = record {
  self = record {
    addr = addr;
    listener = none;
    server = none;
    cancel = none;
    started = false;
    start_err = none;
  };
  next_id = 0;
  open_sockets = [];
  canceled = [];
  serving = [];
  servers = λ id. new_server;
}

abbrev bind : Result NetError Bytes → Host → Option NetError × Host
bind (err e) h = (some e, record h { self = record h.self { start_err = some e } })
bind (ok bound) h = (
  none,
  record h {
    self = record h.self {
      listener = some (record { id = h.next_id; bound_addr = bound });
      server = some h.next_id;
      cancel = some h.next_id;
      started = true;
      start_err = none;
    };
    next_id = suc h.next_id;
    open_sockets = h.next_id ∷ h.open_sockets;
    serving = h.next_id ∷ h.serving;
  },
)

-- `Start`, with what net.Listen returns.
unfoldable pub start : Result NetError Bytes → Host → Option NetError × Host
start bound h = if h.self.started then (none, h) else bind bound h

abbrev cancel_context : Option ℕ → Bytes → Bytes
cancel_context none canceled = canceled
cancel_context (some id) canceled = id ∷ canceled

abbrev pub halt : Host → Host
halt h = record h {
  self = record h.self { listener = none; server = none; cancel = none; started = false };
  canceled = cancel_context h.self.cancel h.canceled;
}

-- `Stop`, up to its wait for the accept loop.
unfoldable pub stop : Host → Host
stop h = if not h.self.started then h else halt h

-- `Addr`, and the Addr of a snapshot.
unfoldable pub listen_addr : SocksListener → Bytes
listen_addr l = elim l.listener [ none ↦ l.addr | some s ↦ s.bound_addr ]

pub record ListenerStatus : Type 0 where
  pub bound : Bool
  pub addr : Bytes
  pub last_error : Option NetError
  pub conns : List ConnInfo

-- The connections of the current server; the nil slice where there is none.
abbrev conns_of : Host → List ConnInfo
conns_of h = elim h.self.server [ none ↦ [] | some id ↦ Server.snapshot (h.servers id) ]

-- `Snapshot`.
unfoldable pub snapshot : Host → ListenerStatus
snapshot h = record {
  bound = h.self.started;
  addr = listen_addr h.self;
  last_error = h.self.start_err;
  conns = conns_of h;
}

-- `ActiveConnCount`.
unfoldable pub active_conn_count : Host → ℕ
active_conn_count h = elim h.self.server [ none ↦ 0 | some id ↦ length (h.servers id).active_conns ]

-- `buildDNSOverride`: the address that lookups are dialled at, if there is an override.
unfoldable pub build_dns_override : IpText → Option Bytes → Option Bytes
build_dns_override net none = none
build_dns_override net (some ip) = some (join_host_port (net.ip_string ip) (codes "53"))

unfoldable pub remove : ℕ → Bytes → Bytes
remove id [] = []
remove id (x ∷ xs) = let rest = remove id xs in if x == id then rest else x ∷ rest

-- The calls, the cancelling of the context that Start was given, the goroutine that closes the
-- socket of a cancelled context, the end of an accept loop whose socket is closed, the end of one by
-- another error of Accept, which closes its socket, and what a server does.
pub data HostEvent : Type 0 where
  start_called : Result NetError Bytes → HostEvent
  stop_called : HostEvent
  parent_canceled watcher_runs loop_ends accept_breaks : ℕ → HostEvent
  serves : ℕ → ServerEvent → HostEvent

abbrev pub on_server : ℕ → ServerEvent → Host → Host
on_server id e h =
    if ltb id h.next_id
    then record h {
      servers = λ j. if id == j then on_server_event e (h.servers j) else h.servers j;
    }
    else h

-- Serve returns, and `done` is closed.
abbrev pub end_loop : ℕ → Host → Host
end_loop id h = record h {
  open_sockets = remove id h.open_sockets;
  serving = remove id h.serving;
  servers = λ j. if id == j then on_server_event accept_failed (h.servers j) else h.servers j;
}

abbrev pub on_event : HostEvent → Host → Host
on_event (start_called bound) h = (start bound h).1
on_event stop_called h = stop h
on_event (parent_canceled id) h = record h { canceled = id ∷ h.canceled }
on_event (watcher_runs id) h =
    if contains id h.canceled then record h { open_sockets = remove id h.open_sockets } else h
on_event (loop_ends id) h = if contains id h.open_sockets then h else end_loop id h
on_event (accept_breaks id) h = end_loop id h
on_event (serves id e) h = on_server id e h

unfoldable pub on_events : List HostEvent → Host → Host
on_events [] h = h
on_events (e ∷ es) h = on_events es (on_event e h)

-- The packages net and the resolver of the override.
pub record Lookup : Type 0 where
  pub net : IpText
  pub split_host_port : Bytes → Result NetError (Bytes × Bytes)
  -- LookupIP for A records.
  pub lookup_ip : Bytes → Result NetError (List Bytes)

pub data DialError : Type 0 where
  lookup_failed : NetError → DialError
  no_records : DialError

module _ (world : Lookup) where
  abbrev pub first_record : Bytes → Result NetError (List Bytes) → Result DialError Bytes
  first_record port (err e) = err (lookup_failed e)
  first_record port (ok []) = err no_records
  first_record port (ok (ip ∷ _)) = ok (join_host_port (world.net.ip_string ip) port)

  abbrev pub resolve_host : Bytes → Bytes → Bytes → Result DialError Bytes
  resolve_host address host port = elim (world.net.parse_ip host) [
    | some _ ↦ ok address
    | none ↦ first_record port (world.lookup_ip host)
  ]

  -- The address that the dialer of Start hands to Tunnel.Dial; the flag says whether there is an
  -- override.
  unfoldable pub resolve_address : Bool → Bytes → Result DialError Bytes
  resolve_address false address = ok address
  resolve_address true address = elim (world.split_host_port address) [
    | err _ ↦ ok address
    | ok (host, port) ↦ resolve_host address host port
  ]
