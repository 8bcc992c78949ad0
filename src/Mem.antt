-- ===== src/Mem.antt =====
-- src/mem: the pages that hosts own and cache, and the diffs that bring them together.
pub mod Diff
pub mod Alloc
pub mod Cache
pub mod Invalid
pub mod Fetch
