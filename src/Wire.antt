-- ===== src/Wire.antt =====
-- packages/rpc/src/wire.ts: the wire protocol of the calls, by its types, its two directions and
-- what holds of them.
pub mod Types
pub mod Platform
pub mod Encode
pub mod Decode
pub mod Clean
pub mod Scrubbed
mod Language
pub mod RoundTrip
mod Tests
