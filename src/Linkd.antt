-- ===== src/Linkd.antt =====
-- linkd/: the daemon beside each border router that shapes its links and keeps the metadata in step.
pub mod Shape
pub mod Api
pub mod BgpStatus
pub mod Coalesce
pub mod Documents
pub mod Sync
