-- ===== src/Examples/Packets.antt =====
-- The packets of the protocol, and the theorems about them at concrete bytes.
use piaproxy.Base.{ℕ, ◌≡◌, refl, [], ◌∷◌, ◌++◌, arith, Bytes, codes}
use piaproxy.Base.Result.{ok}
use piaproxy.Socks.Reader.{read_full}
use piaproxy.Socks.Addr.{read_destination, parse_socks_addr, marshal_addr}
use piaproxy.Socks.Addr.Host.{IsCanonical}
use piaproxy.Socks.Addr.RoundTrip.{parse-marshal, marshal-parse}
use piaproxy.Socks.Handshake.{parse_client_request}
use piaproxy.Socks.Wire.{Response}
use piaproxy.Socks.Handshake.Formats.{parse_client_request-layout}
use piaproxy.Socks.Datagram.{parse_udp_request, marshal_udp}
use piaproxy.Socks.Datagram.RoundTrip.{marshal-parse_udp}
use piaproxy.Examples.{sample_net, site, site_bytes, site-IsCanonical}

parse-marshal_example :
    (pkt : Bytes) × (marshal_addr sample_net site ≡ ok pkt)
    × (parse_socks_addr sample_net (pkt ++ codes "hi") ≡ (ok site, codes "hi"))
parse-marshal_example = parse-marshal sample_net site (codes "hi") site-IsCanonical

site_parses : parse_socks_addr sample_net (site_bytes ++ codes "hi") ≡ (ok site, codes "hi")
unfolding parse_socks_addr read_full read_destination
site_parses = refl

marshal-parse_example :
    IsCanonical sample_net site
    × (pkt : Bytes) × (marshal_addr sample_net site ≡ ok pkt)
    × (site_bytes ++ codes "hi" ≡ pkt ++ codes "hi")
marshal-parse_example =
    marshal-parse sample_net (site_bytes ++ codes "hi") (codes "hi") site (ground arith) site_parses

request_parses :
    parse_client_request sample_net (5 ∷ 1 ∷ 0 ∷ site_bytes)
    ≡ (ok (record { command = 1; destination = site }), [])
unfolding parse_client_request parse_socks_addr read_full read_destination
request_parses = refl

parse_client_request-layout_example :
    (v reserved : ℕ) × (pkt : Bytes) × (5 ∷ 1 ∷ 0 ∷ site_bytes ≡ v ∷ 1 ∷ reserved ∷ (pkt ++ []))
    × (marshal_addr sample_net site ≡ ok pkt)
    × IsCanonical sample_net site
parse_client_request-layout_example =
    parse_client_request-layout sample_net (5 ∷ 1 ∷ 0 ∷ site_bytes) []
      (record { command = 1; destination = site }) (ground arith) request_parses

datagram_parses :
    parse_udp_request sample_net (0 ∷ 0 ∷ 7 ∷ (site_bytes ++ codes "q"))
    ≡ ok (record { frag = 7; addr = site }, codes "q")
unfolding parse_udp_request parse_socks_addr read_full read_destination
datagram_parses = refl

marshal-parse_udp_example :
    (hdr : Bytes) × (marshal_udp sample_net (record { frag = 7; addr = site }) ≡ ok hdr)
    × (0 ∷ 0 ∷ 7 ∷ (site_bytes ++ codes "q") ≡ hdr ++ codes "q")
marshal-parse_udp_example =
    marshal-parse_udp sample_net (0 ∷ 0 ∷ 7 ∷ (site_bytes ++ codes "q")) (codes "q")
      (record { frag = 7; addr = site }) (ground arith) datagram_parses

abbrev answer : Response
answer = record { reply = 0; bind_addr = site }
