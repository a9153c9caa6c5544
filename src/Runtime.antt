-- ===== src/Runtime.antt =====
-- runtime/: what keeps an agent running beside its store.
pub mod Channel
pub mod Poll
pub mod Lock
pub mod Latch
pub mod Tests
