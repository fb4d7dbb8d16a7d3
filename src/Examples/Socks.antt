-- ===== src/Examples/Socks.antt =====
-- Runs of a client connection, and the theorems about it at concrete packets.
use piaproxy.Base.{
  ℕ, ◌≡◌, refl, ◌⊎◌, true, none, some, List, [], ◌∷◌, ◌++◌, arith, length, Bytes, codes, str_eq,
  contains,
}
use piaproxy.Base.Result.{ok, err}
use piaproxy.Net.{eof, closed}
use piaproxy.Net.Decimal.{atoi}
use piaproxy.Socks.Wire.{Request}
use piaproxy.Socks.Reader.{read_full}
use piaproxy.Socks.Addr.{read_destination, get_addr_type, parse_socks_addr, marshal_addr}
use piaproxy.Socks.Handshake.{
  parse_client_greeting, parse_client_auth, parse_client_request, marshal_response,
}
use piaproxy.Socks.Handshake.Formats.{greeting, credentials}
use piaproxy.Socks.Datagram.{parse_udp_request, marshal_udp}
use piaproxy.Socks.State.{
  Credentials, Env, Conn, CopyEvent, down, up, down_done, UdpEvent, from_client, from_target,
  tcp_done,
}
use piaproxy.Socks.Associate.{
  handle_udp_request, handle_udp_response, get_or_dial, is_live, addr_eq, is_timeout, is_closed,
  is_eof, has_target, transfer_udp,
}
use piaproxy.Socks.Associate.Invariant.{IsSound, transfer_udp-IsSound}
use piaproxy.Socks.Conn.{
  auth_method, success_bytes, handle_tcp, relay, run, handle_request, write, split_host_port,
}
use piaproxy.Socks.Conn.Relay.{Counted, relay-Counted}
use piaproxy.Socks.Conn.Replies.{bound_host, connected_reply, dialled}
use piaproxy.Socks.Conn.Auth.{Admitted, TurnedAway, run-Admitted}
use piaproxy.Socks.Conn.Dialogue.{
  read_stream, read_status, read_reply, after_address, skip, replied,
}
use piaproxy.Socks.Server.{new_conn}
use piaproxy.Examples.{sample_net, site, site_bytes}

-- A network where every dial succeeds and every write is whole.
abbrev pub world : Env
world = record {
  net = sample_net;
  split_host_port = λ hostport. ok (codes "peer", codes "80");
  dial = λ network addr. ok (codes "peer:80");
  client_local = codes "peer:80";
  listen_packet = λ addr. ok (codes "peer:80");
  write_target = λ target bytes. ok (length bytes);
  write_client = λ addr bytes. ok (length bytes);
}

abbrev pub owner : Credentials
owner = record { username = codes "u"; password = codes "p" }

abbrev pub fresh : Bytes → Conn
fresh unread = record {
  unread = unread;
  written = [];
  uploaded = [];
  dials = [];
  request = none;
  dest = [];
  method = [];
  rx_bytes = 0;
  tx_bytes = 0;
  udp_client_addr = none;
  targets = [];
  to_targets = [];
  to_client = [];
  listening = true;
}

abbrev pub asked : ℕ → Bytes
asked command = 5 ∷ command ∷ 0 ∷ (site_bytes ++ codes "hi")

abbrev pub request_for : ℕ → Request
request_for command = record { command = command; destination = site }

abbrev pub whole_session : Bytes
whole_session = greeting (0 ∷ 2 ∷ []) ++ credentials (codes "u") (codes "p") ++ asked 1

abbrev pub pieces : List CopyEvent
pieces = down (codes "ok") ∷ up 2 ∷ down_done none ∷ up 9 ∷ []

run_copies : (run world owner pieces [] (fresh whole_session)).1.uploaded ≡ codes "hi"
unfolding run parse_client_greeting read_full contains auth_method str_eq parse_client_auth
    handle_request parse_client_request parse_socks_addr read_destination handle_tcp split_host_port
    atoi relay
run_copies = refl

run-Admitted_example :
    Admitted world owner pieces [] (fresh whole_session)
    ⊎ TurnedAway world owner pieces []
        (fresh whole_session)
        (run world owner pieces [] (fresh whole_session)).1
run-Admitted_example = run-Admitted world owner pieces [] (fresh whole_session)

-- The client reads the reply and what the upstream sent.
client_reads :
    read_stream (run world owner pieces [] (new_conn whole_session)).1.written
    ≡ some (replied 0 (codes "ok"))
unfolding read_stream read_status read_reply after_address skip run parse_client_greeting read_full
    contains auth_method str_eq parse_client_auth handle_request parse_client_request
    parse_socks_addr read_destination handle_tcp split_host_port atoi relay success_bytes
    marshal_response marshal_addr get_addr_type
client_reads = refl

abbrev pub events : List UdpEvent
events =
    from_client (ok (0 ∷ 0 ∷ 0 ∷ (site_bytes ++ codes "q"), codes "me"))
    ∷ from_target site (ok (codes "a"))
    ∷ from_target site (err eof)
    ∷ from_client (err closed)
    ∷ tcp_done none
    ∷ []

transfer_answers :
    (transfer_udp world events (fresh [])).1.to_client
    ≡ (codes "me", 0 ∷ 0 ∷ 0 ∷ (site_bytes ++ codes "a")) ∷ []
unfolding transfer_udp is_live handle_udp_request parse_udp_request parse_socks_addr read_full
    read_destination get_or_dial has_target addr_eq str_eq handle_udp_response marshal_udp
    marshal_addr is_timeout is_closed is_eof
transfer_answers = refl

transfer_udp-IsSound_example : IsSound world (transfer_udp world events (fresh [])).1
transfer_udp-IsSound_example =
    transfer_udp-IsSound world events (fresh []) (omega arith, tt)
      (record { distinct = tt; canonical = tt; framed = tt })

relay-Counted_example : Counted pieces (fresh (codes "hi")) (relay pieces (fresh (codes "hi"))).1
relay-Counted_example = relay-Counted pieces (fresh (codes "hi")) (omega arith) (omega arith)

pub asked-parses :
    (command : ℕ)
    → parse_client_request sample_net (asked command) ≡ (ok (request_for command), codes "hi")
unfolding parse_client_request parse_socks_addr read_full read_destination
asked-parses command = refl

peer_splits : split_host_port world (codes "peer:80") ≡ ok (codes "peer", 80)
unfolding split_host_port atoi
peer_splits = refl

connected_reply_example :
    handle_request world pieces events (fresh (asked 1))
    ≡ relay pieces (
        write
          (5
            ∷ 0
            ∷ 0
            ∷ get_addr_type sample_net (codes "peer")
            ∷ (bound_host sample_net (codes "peer") ++ 0 ∷ 80 ∷ []))
          (dialled world (request_for 1) (codes "hi") (fresh (asked 1))))
connected_reply_example =
    connected_reply world (fresh (asked 1)) (request_for 1) pieces events (codes "hi")
      (codes "peer:80") (codes "peer") 80 (asked-parses 1) refl refl peer_splits (omega arith)
