-- ===== src/SecMod.antt =====
-- ocserv/Ocserv/src/sec-mod-auth.c and sec-mod-db.c: the security module, which authenticates the
-- clients of the workers and keeps an entry for each of their sessions.
pub mod Tests
pub mod Types
pub mod Db
pub mod Reply
pub mod Login
pub mod Session
pub mod Keeps
pub mod Accepting
pub mod Sessions
pub mod Refused
pub mod Barred
pub mod Serve
pub mod Isolation
pub mod Timed
pub mod InUse
