-- ===== src/CacheKeys.antt =====
-- src/lib/cache-keys.ts: the texts that the keys of the caches are made of, and their digests.
pub mod Canonical
pub mod CrossTool
pub mod Fragment
pub mod Hashes
pub mod TargetEnv
pub mod ToolNames
pub mod CrossToolLaws
pub mod Manifests
pub mod Normalize
pub mod Modes
pub mod Paths
pub mod Quote
pub mod Records
pub mod Walk
pub mod Workspace
mod Tests
