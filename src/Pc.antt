-- ===== src/Pc.antt =====
-- kernel/pc/pc.c: processes in eight queues of sixteen slots.
pub mod Context
pub mod State
pub mod Sample
pub mod Init
pub mod Schedule
pub mod Kill
pub mod Create
pub mod Fork
mod Tests
