-- ===== src/Unbound.antt =====
-- src/dns_managers/unbound_manager.c: the configuration of the Unbound resolver.
pub mod Select
pub mod Zones
pub mod Authority
pub mod Commands
pub mod Compare
pub mod Update
pub mod ResolvConf
pub mod Write
pub mod Total
