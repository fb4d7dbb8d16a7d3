-- ===== src/Socks/Datagram/RoundTrip.antt =====
-- Datagram headers: parseUDPRequest against marshal.
use piaproxy.Base.{
  ◌-◌, ◌≡◌, refl, inl, inr, [], ◌∷◌, ◌++◌, All, IsByte, Bytes, arith, length, length-append, drop,
}
use piaproxy.Base.Result.{ok}
use piaproxy.Net.{IpText}
use piaproxy.Socks.Wire.{UdpRequest}
use piaproxy.Socks.Reader.{Reader-cases}
use piaproxy.Socks.Addr.{parse_socks_addr}
use piaproxy.Socks.Addr.Host.{IsCanonical}
use piaproxy.Socks.Addr.RoundTrip.{parse-marshal, marshal-parse, marshal_addr_pos}
use piaproxy.Socks.Datagram.{parse_udp_request, marshal_udp}

drop-append : (xs ys : Bytes) → drop (length xs) (xs ++ ys) ≡ ys
drop-append [] ys = refl
drop-append (x ∷ xs) ys = drop-append xs ys

-- `data[len(data)-bodyLen:]` is the end of that length.
drop_unread : (xs ys : Bytes) → drop (length (xs ++ ys) - length ys) (xs ++ ys) ≡ ys
drop_unread xs ys =
    let e : length (xs ++ ys) - length ys ≡ length xs = omega (arith, length-append xs ys) in
    rw e (drop-append xs ys)

module _ (net : IpText) where
  -- The header of a datagram with a canonical address is marshalled, and parsed back with its
  -- fragment number and the whole payload behind it.
  pub parse-marshal_udp :
      (u : UdpRequest) (payload : Bytes)
      → IsCanonical net u.addr
      → (hdr : Bytes) × (marshal_udp net u ≡ ok hdr)
        × (parse_udp_request net (hdr ++ payload) ≡ ok (u, payload))
  unfolding parse_udp_request marshal_udp
  parse-marshal_udp u payload c =
      let (pkt, m, p) = parse-marshal net u.addr payload c in
      let hdr = 0 ∷ 0 ∷ u.frag ∷ pkt in
      (
        hdr,
        ground arith,
        ground (
          arith,
          drop_unread hdr payload,
          length-append pkt payload,
          marshal_addr_pos net u.addr pkt m,
        ),
      )

  -- A datagram of bytes that is accepted is the header that marshal writes for what was parsed,
  -- followed by the payload.
  pub marshal-parse_udp :
      (bytes payload : Bytes) (u : UdpRequest)
      → All IsByte bytes
      → parse_udp_request net bytes ≡ ok (u, payload)
      → (hdr : Bytes) × (marshal_udp net u ≡ ok hdr) × (bytes ≡ hdr ++ payload)
  unfolding parse_udp_request marshal_udp
  marshal-parse_udp (x ∷ y ∷ f ∷ bytes) payload u b e =
      elim (Reader-cases (parse_socks_addr net) bytes) [
        | inr (er, left, p) ↦ absurd (ground arith)
        | inl (addr, left, p) ↦
            let (c, pkt, m, split) = marshal-parse net bytes left addr b.1.1.1 p in
            let hdr = 0 ∷ 0 ∷ f ∷ pkt in
            (hdr, ground arith, ground (arith, drop_unread (x ∷ y ∷ f ∷ pkt) left))
      ]
  marshal-parse_udp _ payload u b e = absurd (ground arith)

  -- The address of a datagram that is accepted is canonical.
  pub parse_udp-IsCanonical :
      (bytes payload : Bytes) (u : UdpRequest)
      → All IsByte bytes
      → parse_udp_request net bytes ≡ ok (u, payload)
      → IsCanonical net u.addr
  unfolding parse_udp_request
  parse_udp-IsCanonical (x ∷ y ∷ f ∷ bytes) payload u b e =
      elim (Reader-cases (parse_socks_addr net) bytes) [
        | inr (er, left, p) ↦ absurd (ground arith)
        | inl (addr, left, p) ↦
            let same : u.addr ≡ addr = ground arith in
            rw same ((marshal-parse net bytes left addr b.1.1.1 p).0)
      ]
  parse_udp-IsCanonical _ payload u b e = absurd (ground arith)
