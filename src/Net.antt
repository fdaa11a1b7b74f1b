-- ===== src/Net.antt =====
-- IPv4 and IPv6 over 1394: the datagrams that drivers/firewire/net.c puts together from fragments.
pub mod Fragments
pub mod Datagrams
pub mod Header
pub mod Incoming
pub mod Transmit
