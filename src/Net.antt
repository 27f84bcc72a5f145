-- ===== src/Net.antt =====
-- The network part: src/net and include/vix/async/net.
pub mod Await
pub mod Dns
pub mod Factories
pub mod Listener
pub mod Service
pub mod Sockets
pub mod Tcp
pub mod Udp
mod Tests
