-- ===== src/Ping.antt =====
-- The program ping (bind_function/ping.cpp) and the headers of its packets.
pub mod Stream
pub mod Icmp
pub mod Ipv4
pub mod Pinger
pub mod Rounding
