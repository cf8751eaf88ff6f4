-- ===== src/Http.antt =====
-- ocserv/Ocserv/src/worker-http.c: what a worker takes from the HTTP requests of its client. The
-- parser, which calls the functions here, and the decoding of Base64 and hexadecimal digits are
-- parameters.
pub mod Types
pub mod Select
pub mod Value
pub mod Callbacks
pub mod Urls
pub mod Best
pub mod Sound
pub mod Calls
pub mod Routes
pub mod Headers
pub mod Form
pub mod Fields
pub mod Post
pub mod PostAuth
pub mod Granted
pub mod Allowed
pub mod Tests
pub mod PostTests
