-- ===== src/Socks/Conn/Dialogue/Whole.antt =====
-- The whole dialogue of a connection, as its client sees it.
use piaproxy.Base.{ℕ, ◌≡◌, ◌⊎◌, true, false, contains, some, List, [], ◌∷◌, ◌++◌, Bytes, codes}
use piaproxy.Base.Result.{ok}
use piaproxy.Socks.Handshake.Formats.{greeting, credentials}
use piaproxy.Socks.Wire.{connect, udp_associate, general_failure, command_not_supported}
use piaproxy.Socks.State.{Env, Conn, Credentials, CopyEvent, UdpEvent}
use piaproxy.Socks.Conn.{need_auth, split_host_port}
use piaproxy.Socks.Conn.Replies.{bound_code}
use piaproxy.Socks.Conn.Relay.{downloaded}
use piaproxy.Socks.Conn.Dialogue.{View, refused, auth_failed, silent, replied, read_stream}
use piaproxy.Socks.Conn.Dialogue.Ends.{Unmoved, Copied, Asks, Ends}

module _ (env : Env) (server : Credentials) (traffic : List CopyEvent)
    (events : List UdpEvent) where
  -- What the client sent before its request: a greeting with the method of the server, and the
  -- credentials of a server that has some.
  pub data Opening : Bytes → Type 0 where
    greeted :
        (methods : Bytes)
        → need_auth server ≡ false
        → contains 0 methods ≡ true
        → Opening (greeting methods)
    admitted :
        (methods : Bytes)
        → need_auth server ≡ true
        → contains 2 methods ≡ true
        → Opening (greeting methods ++ credentials server.username server.password)

  -- Behind an opening the client sent a request of the command, whose destination is that of the
  -- connection, and then `body`.
  pub record Requests (unread : Bytes) (command : ℕ) (body : Bytes) (d : Conn) : Type 0 where
    pub front : Bytes
    pub sent : Bytes
    pub opening : Opening front
    pub splits : unread ≡ front ++ sent
    pub asks : Asks env traffic events sent command body d

  -- What happened, by what the client was told.
  pub data Told (unread : Bytes) (d : Conn) (v : View) : Type 0 where
    turned_away :
        (v ≡ refused) ⊎ ((v ≡ auth_failed) × (need_auth server ≡ true))
        → d.dials ≡ []
        → Unmoved d
        → Told unread d v
    dropped : v ≡ silent → Unmoved d → Told unread d v
    failed :
        (code : ℕ)
        → (code ≡ general_failure) ⊎ (code ≡ command_not_supported)
        → v ≡ replied code []
        → Unmoved d
        → Told unread d v
    connected :
        (host body local_addr : Bytes) (port : ℕ)
        → Requests unread connect body d
        → d.method ≡ codes "tcp"
        → d.dials ≡ (codes "tcp", d.dest) ∷ []
        → env.dial (codes "tcp") d.dest ≡ ok local_addr
        → split_host_port env local_addr ≡ ok (host, port)
        → v ≡ replied (bound_code env.net host) (downloaded traffic)
        → Copied env traffic events body d
        → Told unread d v
    associated :
        (host body local_addr : Bytes) (port : ℕ)
        → Requests unread udp_associate body d
        → d.method ≡ codes "udp"
        → split_host_port env local_addr ≡ ok (host, port)
        → v ≡ replied (bound_code env.net host) []
        → Unmoved d
        → Told unread d v

  -- The client makes something of all that was written, and it is what happened.
  pub record Seen (unread : Bytes) (d : Conn) : Type 0 where
    pub view : View
    pub reads : read_stream d.written ≡ some view
    pub told : Told unread d view
