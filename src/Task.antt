-- ===== src/Task.antt =====
-- kernel/task: identifiers of threads.
pub mod Id
mod Tests
