-- ===== src/Worker.antt =====
-- ocserv/Ocserv/src/worker-vpn.c: what a worker decides while its client is connected.
pub mod Mtu
pub mod Discovery
pub mod Packet
pub mod Channels
pub mod Receive
pub mod Frame
pub mod Made
pub mod RoundTrip
pub mod Alive
pub mod Dead
pub mod Loop
pub mod Silent
pub mod Heard
pub mod Tests
