-- ===== src/Socks/Conn/Dialogue/Kept.antt =====
-- What the copying and an association leave alone.
use piaproxy.Base.{◌≡◌, inl, inr, List, [], ◌∷◌, ◌++◌, arith, length, take, drop, Bool-cases, Bytes}
use piaproxy.Base.Result.{Result, ok, err, Result-cases}
use piaproxy.Net.{NetError}
use piaproxy.Socks.Wire.{SocksAddr}
use piaproxy.Socks.State.{
  Env, Conn, CopyEvent, down, up, UdpEvent, from_client, from_target, tcp_done,
}
use piaproxy.Socks.Datagram.{parse_udp_request}
use piaproxy.Socks.Associate.{
  buffer_size, has_target, get_or_dial, handle_udp_request, handle_udp_response, transfer_udp,
  after_request, after_response,
}
use piaproxy.Socks.Conn.{count_write, relay}

-- The copying leaves what the connection was dialled for.
pub record SameRequest (c d : Conn) : Type 0 where
  pub dials : d.dials ≡ c.dials
  pub dest : d.dest ≡ c.dest
  pub method : d.method ≡ c.method

pub relay-SameRequest : (es : List CopyEvent) (c : Conn) → SameRequest c (relay es c).1
unfolding relay
relay-SameRequest [] c = ground arith
relay-SameRequest (down p ∷ es) c =
    let d = record c { written = c.written ++ p; rx_bytes = count_write (length p) c.rx_bytes } in
    let r = relay-SameRequest es d in record { dials = r.dials; dest = r.dest; method = r.method }
relay-SameRequest (up n ∷ es) c =
    let d = record c {
      unread = drop n c.unread;
      uploaded = c.uploaded ++ take n c.unread;
      tx_bytes = count_write (length (take n c.unread)) c.tx_bytes;
    } in
    let r = relay-SameRequest es d in record { dials = r.dials; dest = r.dest; method = r.method }
relay-SameRequest (_ ∷ es) c = ground arith

-- The TCP side is as it was.
pub record SameStream (c d : Conn) : Type 0 where
  pub written : d.written ≡ c.written
  pub uploaded : d.uploaded ≡ c.uploaded
  pub rx : d.rx_bytes ≡ c.rx_bytes
  pub tx : d.tx_bytes ≡ c.tx_bytes
  pub method : d.method ≡ c.method
  pub dest : d.dest ≡ c.dest

module _ (env : Env) where
  handle_udp_request-SameStream :
      (r : Result NetError (Bytes × Bytes)) (c : Conn)
      → SameStream c (after_request (handle_udp_request env r c))
  unfolding handle_udp_request get_or_dial
  handle_udp_request-SameStream (err e) c = ground arith
  handle_udp_request-SameStream (ok (datagram, addr)) c =
      elim (Result-cases (parse_udp_request env.net (take buffer_size datagram))) [
        | inr (e, p) ↦ ground arith
        | inl ((u, payload), p) ↦ elim (Bool-cases (has_target u.addr c.targets)) [
          | inl there ↦ ground arith
          | inr new ↦ ground arith
        ]
      ]

  handle_udp_response-SameStream :
      (a : SocksAddr) (r : Result NetError Bytes) (c : Conn)
      → SameStream c (after_response a (handle_udp_response env a r c))
  unfolding handle_udp_response
  handle_udp_response-SameStream a (err e) c = ground arith
  handle_udp_response-SameStream a (ok bytes) c = ground arith

  pub transfer_udp-SameStream :
      (es : List UdpEvent) (c : Conn) → SameStream c (transfer_udp env es c).1
  unfolding transfer_udp
  transfer_udp-SameStream [] c = ground arith
  transfer_udp-SameStream (from_client r ∷ es) c = ground (
    arith,
    handle_udp_request-SameStream r c,
    transfer_udp-SameStream es (after_request (handle_udp_request env r c)),
    transfer_udp-SameStream es c,
  )
  transfer_udp-SameStream (from_target a r ∷ es) c = ground (
    arith,
    handle_udp_response-SameStream a r c,
    transfer_udp-SameStream es (after_response a (handle_udp_response env a r c)),
    transfer_udp-SameStream es c,
  )
  transfer_udp-SameStream (tcp_done e ∷ es) c = ground arith
