-- ===== src/Access.antt =====
-- Who may run an iperf3 test: `AuthAddressCache` (server/src/auth_cache.rs), which remembers who
-- logged in from where, and the check of `Iperf3Server` (iperf3-server/src/server.rs) that asks it.
pub mod Normal
pub mod Cache
pub mod Iperf
pub mod Expiry
pub mod Admission
pub mod States
mod Tests
