-- ===== src/Examples.antt =====
-- Concrete worlds for the tests: an interface to IP addresses, and the networks, endpoints and
-- clients that the examples run in.
mod Socks
mod Association
mod Daemon
mod Packets
mod Pia
mod Session
mod Tunnel
mod Proxy
mod Startup
mod Exchange
mod Shutdown
use piaproxy.Base.{
  ℕ, ◌==◌, ◌≡◌, refl, Bool, Option, none, some, [], ◌∷◌, ◌++◌, if◌then◌else◌, arith, length,
  length-append, Bytes, codes, str_eq, str_eq_iff, All, IsByte, Bool-cases, inl, inr,
}
use piaproxy.Socks.Wire.{SocksAddr}
use piaproxy.Socks.Addr.Host.{IsCanonical, name}
use piaproxy.Net.{IpText, v4_in_v6_prefix}

-- An address is its own 16 bytes as a text, but for the unspecified IPv4 address.
abbrev parse_sample : Bytes → Option Bytes
parse_sample s =
    if str_eq s (codes "0.0.0.0")
    then some (v4_in_v6_prefix ++ 0 ∷ 0 ∷ 0 ∷ 0 ∷ [])
    else if length s == 16
    then some s
    else none

abbrev print_sample : Bytes → Bytes
print_sample ip = if length ip == 4 then v4_in_v6_prefix ++ ip else ip

pub parse_sample-length : (s ip : Bytes) → parse_sample s ≡ some ip → length ip ≡ 16
parse_sample-length s ip e = ground arith

pub parse_sample-print4 :
    (ip : Bytes)
    → length ip ≡ 4
    → All IsByte ip
    → parse_sample (print_sample ip) ≡ some (v4_in_v6_prefix ++ ip)
unfolding str_eq
parse_sample-print4 ip l b = ground (arith, length-append v4_in_v6_prefix ip)

pub parse_sample-print16 :
    (ip : Bytes) → length ip ≡ 16 → All IsByte ip → parse_sample (print_sample ip) ≡ some ip
parse_sample-print16 ip l b = ground (arith, str_eq_iff ip (codes "0.0.0.0"))

pub parse_sample-unspecified :
    parse_sample (codes "0.0.0.0") ≡ some (v4_in_v6_prefix ++ 0 ∷ 0 ∷ 0 ∷ 0 ∷ [])
unfolding str_eq
parse_sample-unspecified = refl

abbrev pub sample_net : IpText
sample_net = record {
  parse_ip = parse_sample;
  ip_string = print_sample;
  parse_ip-length = parse_sample-length;
  parse_ip-ip_string4 = parse_sample-print4;
  parse_ip-ip_string16 = parse_sample-print16;
  parse_ip-unspecified = parse_sample-unspecified;
}

-- An address on the wire.
abbrev pub site : SocksAddr
site = record { addr_type = 3; addr = codes "host"; port = 80 }

pub site-IsCanonical : IsCanonical sample_net site
site-IsCanonical = record { host = name refl (omega arith); port_fits = omega arith }

abbrev pub site_bytes : Bytes
site_bytes = 3 ∷ 4 ∷ (codes "host" ++ 0 ∷ 80 ∷ [])
