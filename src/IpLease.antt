-- ===== src/IpLease.antt =====
-- ocserv/Ocserv/src/ip-lease.c: the addresses that main gives to the clients. An address is the
-- list of its 4 or 16 bytes, which also tells its family; the table holds the leases by `rip`.
pub mod Address
pub mod Choice
pub mod Registry
pub mod Usable
pub mod Release
pub mod Tests
