-- ===== src/Edge.antt =====
-- packages/edge-router/src: the router in front of the backends.
pub mod Matching
pub mod RouteCache
pub mod Cors
pub mod Proxy
pub mod Updates
pub mod ProjectId
pub mod Service
mod Tests
