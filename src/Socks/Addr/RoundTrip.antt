-- ===== src/Socks/Addr/RoundTrip.antt =====
-- Addresses on the wire: parseSocksAddr against marshal.
use mathlib.Core.List.{append_assoc}
use piaproxy.Base.{
  length, All-append_left, All-append_right, ℕ, ◌+◌, ◌*◌, ◌<◌, ◌≡◌, refl, inl, inr, [], ◌∷◌, ◌++◌,
  All, IsByte, Bytes, arith, Option-cases,
}
use piaproxy.Base.Result.{ok}
use piaproxy.Net.{IpText}
use piaproxy.Socks.Wire.{SocksAddr}
use piaproxy.Socks.Reader.{Reader-cases, read_full}
use piaproxy.Socks.Addr.{big_endian, read_destination, parse_socks_addr, marshal_addr}
use piaproxy.Socks.Addr.Host.{
  read_full-eq-some, two_bytes, IsHost, IsCanonical, host_bytes, marshal_host-host_bytes,
  read_destination-host_bytes, read_destination-IsHost,
}

module _ (net : IpText) where
  -- A canonical address is marshalled, and parsed back from every stream that begins with its
  -- bytes, of which the rest is left.
  pub parse-marshal :
      (a : SocksAddr) (rest : Bytes)
      → IsCanonical net a
      → (pkt : Bytes) × (marshal_addr net a ≡ ok pkt)
        × (parse_socks_addr net (pkt ++ rest) ≡ (ok a, rest))
  unfolding marshal_addr parse_socks_addr read_full
  parse-marshal a rest c =
      let host = host_bytes net c.host in
      (
        a.addr_type ∷ (host ++ big_endian a.port),
        rw (marshal_host-host_bytes net a c.host, marshal_addr),
        ground (
          arith,
          append_assoc host (big_endian a.port) rest,
          read_destination-host_bytes net a c.host (big_endian a.port ++ rest),
          c.port_fits,
        ),
      )

  -- The packet of the address that stands for a type, a host and two bytes of port.
  marshal_parts :
      (a : SocksAddr) (p0 p1 : ℕ) (h : IsHost net a.addr_type a.addr)
      → a.port ≡ p0 * 256 + p1
      → p0 < 256
      → p1 < 256
      → IsCanonical net a
        × (marshal_addr net a ≡ ok (a.addr_type ∷ (host_bytes net h ++ p0 ∷ p1 ∷ [])))
  unfolding marshal_addr
  marshal_parts a p0 p1 h e b0 b1 = (
    record { host = h; port_fits = omega arith },
    rw (marshal_host-host_bytes net a h, marshal_addr) (ground arith),
  )

  -- Whatever parseSocksAddr accepts from a stream of bytes is a canonical address, which marshal
  -- writes with the very bytes that were read.
  pub marshal-parse :
      (r rest : Bytes) (a : SocksAddr)
      → All IsByte r
      → parse_socks_addr net r ≡ (ok a, rest)
      → IsCanonical net a × (pkt : Bytes) × (marshal_addr net a ≡ ok pkt) × (r ≡ pkt ++ rest)
  unfolding parse_socks_addr read_full
  marshal-parse [] rest a b e = absurd (ground arith)
  marshal-parse (t ∷ r) rest a b e = elim (Reader-cases (read_destination net t) r) [
    | inr (x, left, f) ↦ absurd (ground arith)
    | inl (addr, left, f) ↦ elim (Option-cases (read_full 2 left)) [
      | inl g ↦ absurd (ground arith)
      | inr ((ps, left'), g) ↦
          let (h, split) = read_destination-IsHost net t r left addr b.1 f in
          let (split', l) = read_full-eq-some 2 left {bs = ps} {rest = left'} g in
          let (p0, p1, e2) = two_bytes ps l in
          let bytes : All IsByte (p0 ∷ p1 ∷ []) = rw e2 at (
            All-append_left IsByte ps left'
              (rw split' at (All-append_right IsByte (host_bytes net h) left (rw split at b.1)))) in
          let parsed : SocksAddr = record { addr_type = t; addr = addr; port = p0 * 256 + p1 } in
          let (c, m) = marshal_parts parsed p0 p1 h refl bytes.0 bytes.1.0 in
          let same : a ≡ parsed = ground arith in
          rw same (
            c,
            t ∷ (host_bytes net h ++ p0 ∷ p1 ∷ []),
            m,
            ground (arith, append_assoc (host_bytes net h) (p0 ∷ p1 ∷ []) rest),
          )
    ]
  ]

  -- A marshalled address has its type in front.
  pub marshal_addr_pos :
      (a : SocksAddr) (pkt : Bytes) → marshal_addr net a ≡ ok pkt → 0 < length pkt
  unfolding marshal_addr
  marshal_addr_pos a pkt h = ground arith
