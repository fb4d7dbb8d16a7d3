-- ===== src/Socks/State.antt =====
-- The state of a client connection, the answers of the network around it, and its errors.
use piaproxy.Base.{ℕ, Bool, Option, none, some, List, Bytes}
use piaproxy.Base.Result.{Result}
use piaproxy.Net.{IpText, NetError}
use piaproxy.Socks.Wire.{SocksAddr, SocksError, Request}

-- The credentials of `Server`; both empty for none.
pub record Credentials : Type 0 where
  pub username : Bytes
  pub password : Bytes

pub data ConnError : Type 0 where
  protocol : SocksError → ConnError
  network : NetError → ConnError
  -- Atoi refused the port, or it is no uint16.
  bad_port : ConnError
  unsupported_command : ℕ → ConnError
  from_backend from_client udp_associated : NetError → ConnError

-- `fmt.Errorf("…: %w", err)` where `err` may be nil.
abbrev pub wrap : (NetError → ConnError) → Option NetError → Option ConnError
wrap f none = none
wrap f (some e) = some (f e)

-- A method has returned, with an error or nil, or is still copying.
pub data Outcome : Type 0 where
  returned : Option ConnError → Outcome
  running : Outcome

-- A step of the copying of handleTCP: a piece that the upstream sent, the number of bytes that go
-- up next, and the end of one direction.
pub data CopyEvent : Type 0 where
  down : Bytes → CopyEvent
  up : ℕ → CopyEvent
  down_done up_done : Option NetError → CopyEvent

-- A step of a UDP association: ReadFrom returns in the goroutine of the client, Read returns in
-- that of a target, or the copy of the TCP connection ends.
pub data UdpEvent : Type 0 where
  from_client : Result NetError (Bytes × Bytes) → UdpEvent
  from_target : SocksAddr → Result NetError Bytes → UdpEvent
  tcp_done : Option NetError → UdpEvent

-- The answers of the network for one connection.
pub record Env : Type 0 where
  pub net : IpText
  -- net.SplitHostPort.
  pub split_host_port : Bytes → Result NetError (Bytes × Bytes)
  -- `Server.dial(network, addr)`: the text of the new connection's LocalAddr.
  pub dial : Bytes → Bytes → Result NetError Bytes
  -- The text of the client connection's LocalAddr.
  pub client_local : Bytes
  -- net.ListenPacket("udp", addr): the text of the packet connection's LocalAddr.
  pub listen_packet : Bytes → Result NetError Bytes
  -- `targetConn.Write` of a UDP target, and `clientConn.WriteTo`: how many bytes went out.
  pub write_target : SocksAddr → Bytes → Result NetError ℕ
  pub write_client : Bytes → Bytes → Result NetError ℕ

-- A dialled UDP target; `live` until its goroutine returns.
pub record Target : Type 0 where
  pub target : SocksAddr
  pub live : Bool

pub record Conn : Type 0 where
  -- What the client will send before it closes, less what was read.
  pub unread : Bytes
  -- All that was handed to `clientConn.Write`.
  pub written : Bytes
  -- All that was copied to the upstream.
  pub uploaded : Bytes
  -- The calls of `Server.dial`, as (network, addr), the oldest first.
  pub dials : List (Bytes × Bytes)
  pub request : Option Request
  pub dest : Bytes
  pub method : Bytes
  pub rx_bytes : ℕ
  pub tx_bytes : ℕ
  pub udp_client_addr : Option Bytes
  -- `udpTargetConns`, with the goroutines that read from them.
  pub targets : List Target
  -- The datagrams handed to Write of a target, and to WriteTo with the client's address.
  pub to_targets : List (SocksAddr × Bytes)
  pub to_client : List (Bytes × Bytes)
  -- Whether the goroutine that reads from the client is in its loop.
  pub listening : Bool
