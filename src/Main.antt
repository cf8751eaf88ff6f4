-- ===== src/Main.antt =====
-- The main process of ocserv: the clients' processes, and the cookies that they present
-- (ocserv/Ocserv/src/proc-search.c, main-auth.c, main-sec-mod-cmd.c, main-misc.c), and the datagrams
-- on its UDP port (main.c).
pub mod Proc
pub mod Table
pub mod Atomic
pub mod Session
pub mod BanRequest
pub mod Auth
pub mod Accept
pub mod Granted
pub mod Users
pub mod Serve
pub mod Scripts
pub mod Tests
pub mod Udp
pub mod Forward
pub mod UdpTests
