-- ===== src/Password.antt =====
-- The file of users and passwords: ocpasswd.c, which writes it, and auth/plain.c, which reads it.
-- `crypt`, the random numbers and the file operations' success are parameters.
pub mod Groups
pub mod Tool
pub mod Plain
pub mod Entries
pub mod Read
pub mod Write
pub mod Lookup
pub mod Commands
pub mod Tries
pub mod Access
pub mod Tests
