-- ===== src/Pia.antt =====
-- pia.go: the client of the PIA API.
pub mod Http
pub mod Regions
pub mod Register
pub mod Client
pub mod Certificate
pub mod Exchange
pub mod Network
pub mod Keys
