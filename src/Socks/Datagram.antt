-- ===== src/Socks/Datagram.antt =====
-- The header of a relayed UDP datagram: parseUDPRequest and `marshal` of a udpRequest.
pub mod RoundTrip
use piaproxy.Base.{
  ℕ, ◌-◌, ◌==◌, ◌&&◌, ◌∷◌, [], ◌++◌, if◌then◌else◌, get_or, length, drop, ltb, not, Bytes,
}
use piaproxy.Base.Result.{Result, ok, err}
use piaproxy.Net.{IpText}
use piaproxy.Socks.Wire.{SocksAddr, UdpRequest, SocksError, packet_too_short, udp_header_invalid}
use piaproxy.Socks.Addr.{parse_socks_addr, marshal_addr}

-- The header read from `data[3:]`, and `data` from where the reader has `body_len` bytes unread.
abbrev udp_request_of :
    Bytes → Result SocksError SocksAddr × Bytes → Result SocksError (UdpRequest × Bytes)
udp_request_of bytes (err e, unread) = err e
udp_request_of bytes (ok addr, unread) =
    ok (record { frag = get_or bytes 2 0; addr = addr }, drop (length bytes - length unread) bytes)

module _ (net : IpText) where
  unfoldable pub parse_udp_request : Bytes → Result SocksError (UdpRequest × Bytes)
  parse_udp_request bytes =
      if ltb (length bytes) 4
      then err packet_too_short
      else if not (get_or bytes 0 0 == 0 && get_or bytes 1 0 == 0)
      then err udp_header_invalid
      else udp_request_of bytes (parse_socks_addr net (drop 3 bytes))

  unfoldable pub marshal_udp : UdpRequest → Result SocksError Bytes
  marshal_udp u = elim (marshal_addr net u.addr) [
    | err e ↦ err e
    | ok addr_pkt ↦ ok (0 ∷ 0 ∷ u.frag ∷ addr_pkt)
  ]
