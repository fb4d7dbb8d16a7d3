-- ===== src/Socks/Addr.antt =====
-- `socksAddr`: parseSocksAddr, marshal, hostPort, and getAddrType.
pub mod Host
pub mod RoundTrip
use piaproxy.Base.{
  ℕ, ◌+◌, ◌*◌, ◌/◌, ◌%◌, ◌==◌, none, some, [], ◌∷◌, ◌++◌, if◌then◌else◌, length, bind, get_or, ltb,
  Bytes,
}
use piaproxy.Base.Result.{Result, ok, err, or_err}
use piaproxy.Net.{IpText, to4, to16, join_host_port}
use piaproxy.Net.Decimal.{itoa}
use piaproxy.Base.Int.{pos}
use piaproxy.Socks.Wire.{
  SocksAddr, SocksError, ipv4, domain_name, ipv6, addr_type_unread, ipv4_unread, name_size_unread,
  name_unread, ipv6_unread, addr_type_unsupported, port_unread, bind_ipv4_invalid,
  bind_name_invalid, bind_ipv6_invalid, bind_type_unsupported,
}
use piaproxy.Socks.Reader.{Reader, pure, fail, read, ◌>>=◌}

-- The bytes of a big-endian uint16, and back.
abbrev pub big_endian : ℕ → Bytes
big_endian n = (n / 256 % 256) ∷ (n % 256) ∷ []

abbrev pub uint16_of : Bytes → ℕ
uint16_of bs = get_or bs 0 0 * 256 + get_or bs 1 0

unfoldable pub host_port : SocksAddr → Bytes
host_port s = join_host_port s.addr (itoa (pos s.port))

module _ (net : IpText) where
  open net use {parse_ip, ip_string}

  -- The switch over the address type.
  unfoldable pub read_destination : ℕ → Reader Bytes
  read_destination addr_type =
      if addr_type == ipv4
      then (do ip ← read 4 ipv4_unread; pure (ip_string ip))
      else if addr_type == domain_name
      then (do size ← read 1 name_size_unread; read (get_or size 0 0) name_unread)
      else if addr_type == ipv6
      then (do ip ← read 16 ipv6_unread; pure (ip_string ip))
      else fail addr_type_unsupported

  unfoldable pub parse_socks_addr : Reader SocksAddr
  parse_socks_addr = do
    addr_type_data ← read 1 addr_type_unread
    destination ← read_destination (get_or addr_type_data 0 0)
    port_bytes ← read 2 port_unread
    pure (record {
      addr_type = get_or addr_type_data 0 0;
      addr = destination;
      port = uint16_of port_bytes;
    })

  -- The switch that fills `addr`; `byte(n)` keeps the low eight bits.
  unfoldable pub marshal_host : SocksAddr → Result SocksError Bytes
  marshal_host s =
      if s.addr_type == ipv4
      then or_err (bind (parse_ip s.addr) to4) bind_ipv4_invalid
      else if s.addr_type == domain_name
      then (if ltb 255 (length s.addr)
          then err bind_name_invalid
          else ok ((length s.addr % 256) ∷ s.addr))
      else if s.addr_type == ipv6
      then or_err (bind (parse_ip s.addr) to16) bind_ipv6_invalid
      else err bind_type_unsupported

  unfoldable pub marshal_addr : SocksAddr → Result SocksError Bytes
  unfolding marshal_host
  marshal_addr s = elim (marshal_host s) [
    | err e ↦ err e
    | ok host ↦ ok (s.addr_type ∷ (host ++ big_endian s.port))
  ]

  unfoldable pub get_addr_type : Bytes → ℕ
  get_addr_type addr = elim (parse_ip addr) [
    | none ↦ domain_name
    | some ip ↦ elim (to4 ip) [ some v4 ↦ ipv4 | none ↦ ipv6 ]
  ]
