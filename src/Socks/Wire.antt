-- ===== src/Socks/Wire.antt =====
-- The constants, packets and errors of socks5.go. A byte of a packet is a number.
use piaproxy.Base.{ℕ, Bytes, codes}

-- Authentication methods, and the two version bytes.
abbrev pub no_auth_required : ℕ
no_auth_required = 0

abbrev pub password_auth : ℕ
password_auth = 2

abbrev pub no_acceptable_auth : ℕ
no_acceptable_auth = 255

abbrev pub password_auth_version : ℕ
password_auth_version = 1

abbrev pub socks5_version : ℕ
socks5_version = 5

-- `commandType`.
abbrev pub connect : ℕ
connect = 1

abbrev pub udp_associate : ℕ
udp_associate = 3

-- `addrType`.
abbrev pub ipv4 : ℕ
ipv4 = 1

abbrev pub domain_name : ℕ
domain_name = 3

abbrev pub ipv6 : ℕ
ipv6 = 4

-- `replyCode`.
abbrev pub success : ℕ
success = 0

abbrev pub general_failure : ℕ
general_failure = 1

abbrev pub host_unreachable : ℕ
host_unreachable = 4

abbrev pub command_not_supported : ℕ
command_not_supported = 7

pub record SocksAddr : Type 0 where
  pub addr_type : ℕ
  pub addr : Bytes
  pub port : ℕ

abbrev pub zero_socks_addr : SocksAddr
zero_socks_addr = record { addr_type = ipv4; addr = codes "0.0.0.0"; port = 0 }

pub record Request : Type 0 where
  pub command : ℕ
  pub destination : SocksAddr

pub record Response : Type 0 where
  pub reply : ℕ
  pub bind_addr : SocksAddr

pub record UdpRequest : Type 0 where
  pub frag : ℕ
  pub addr : SocksAddr

unfoldable pub error_response : ℕ → Response
error_response code = record { reply = code; bind_addr = zero_socks_addr }

-- The messages of this file's `fmt.Errorf` calls, one constructor for each.
pub data SocksError : Type 0 where
  header_unread version_mismatch methods_unread no_acceptable_method : SocksError
  auth_header_unread auth_version_bad username_unread password_size_unread : SocksError
  password_unread : SocksError
  addr_type_unread ipv4_unread name_size_unread name_unread ipv6_unread : SocksError
  addr_type_unsupported port_unread : SocksError
  bind_ipv4_invalid bind_name_invalid bind_ipv6_invalid bind_type_unsupported : SocksError
  packet_too_short udp_header_invalid : SocksError
