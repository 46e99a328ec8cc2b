-- ===== src/Encapsulation.antt =====
-- packages/core/src/context.ts with the hook store of packages/core/src/hooks.ts: the contexts of the
-- plugins and what a route takes from them.
pub mod Types
pub mod Scopes
pub mod Contexts
pub mod Steps
mod Branches
mod Forgotten
pub mod Visits
pub mod Complete
pub mod Tree
pub mod Fresh
pub mod Isolation
mod Tests
