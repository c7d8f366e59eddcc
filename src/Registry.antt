-- ===== src/Registry.antt =====
-- kernel/registry: the index of kernel objects by name.
pub mod NameIndex
mod Tests
