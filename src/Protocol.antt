-- ===== src/Protocol.antt =====
-- crates/protocol: the wire protocol of PostgreSQL as the proxy reads and writes it. A byte is a
-- natural number below 256 and a text the list of its bytes.
pub mod Framing
pub mod Message
pub mod Ready
pub mod Startup
pub mod Listen
pub mod Frontend
mod Tests
