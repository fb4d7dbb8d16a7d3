-- ===== src/Net.antt =====
-- What the program uses of Go's package net for addresses: To4, To16 and JoinHostPort are written
-- out, and the textual forms of an IP address are an interface, with what their documentation says.
pub mod Decimal
use piaproxy.Base.{
  codes, contains, ℕ, ◌==◌, ◌≡◌, Bool, false, ◌&&◌, ◌||◌, Option, none, some, List, [], ◌∷◌, ◌++◌,
  if◌then◌else◌, length, take, drop, All, Bytes, IsByte, str_eq,
}

-- The twelve bytes in front of an IPv4 address in its 16-byte form.
abbrev pub v4_in_v6_prefix : Bytes
v4_in_v6_prefix = 0 ∷ 0 ∷ 0 ∷ 0 ∷ 0 ∷ 0 ∷ 0 ∷ 0 ∷ 0 ∷ 0 ∷ 255 ∷ 255 ∷ []

-- `IP.To4`; `none` is a nil IP.
unfoldable pub to4 : Bytes → Option Bytes
to4 ip =
    if length ip == 4
    then some ip
    else if length ip == 16 && str_eq (take 12 ip) v4_in_v6_prefix
    then some (drop 12 ip)
    else none

-- `IP.To16`.
unfoldable pub to16 : Bytes → Option Bytes
to16 ip =
    if length ip == 4
    then some (v4_in_v6_prefix ++ ip)
    else if length ip == 16
    then some ip
    else none

-- net.ParseIP (`none` is nil) and IP.String.
pub record IpText : Type 0 where
  pub parse_ip : Bytes → Option Bytes
  pub ip_string : Bytes → Bytes
  -- ParseIP returns the 16-byte form.
  pub parse_ip-length : (s ip : Bytes) → parse_ip s ≡ some ip → length ip ≡ 16
  -- String writes a form that ParseIP accepts, and a 4-byte address comes back in its 16-byte form.
  pub parse_ip-ip_string4 :
      (ip : Bytes)
      → length ip ≡ 4
      → All IsByte ip
      → parse_ip (ip_string ip) ≡ some (v4_in_v6_prefix ++ ip)
  pub parse_ip-ip_string16 :
      (ip : Bytes) → length ip ≡ 16 → All IsByte ip → parse_ip (ip_string ip) ≡ some ip
  pub parse_ip-unspecified :
      parse_ip (codes "0.0.0.0") ≡ some (v4_in_v6_prefix ++ 0 ∷ 0 ∷ 0 ∷ 0 ∷ [])

-- `net.JoinHostPort`: brackets round a host with a colon.
unfoldable pub join_host_port : Bytes → Bytes → Bytes
join_host_port host port =
    if contains b':' host then b'[' ∷ (host ++ (b']' ∷ b':' ∷ port)) else host ++ (b':' ∷ port)

-- The errors of Go's network calls, as far as the program tells them apart.
pub data NetError : Type 0 where
  -- net.ErrClosed, io.EOF, an error whose Timeout() is true, and ErrTunnelDown of tunnel.go
  closed eof timed_out tunnel_down : NetError
  other : Bytes → NetError
