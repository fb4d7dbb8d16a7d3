-- ===== src/Socks.antt =====
-- socks5.go: the SOCKS5 server.
pub mod Reader
pub mod Wire
pub mod Addr
pub mod Handshake
pub mod Datagram
pub mod State
pub mod Associate
pub mod Conn
pub mod Server
pub mod Listener
