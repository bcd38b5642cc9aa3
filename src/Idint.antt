-- ===== src/Idint.antt =====
-- dashboard/backend/internal/idint: the path inspector's trace session.
pub mod Wire
pub mod Paths
pub mod Manager
pub mod Ticks
pub mod Options
pub mod Numbers
pub mod Pairing
pub mod Latency
pub mod Sessions
pub mod Answers
pub mod Examples
