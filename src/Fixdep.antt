-- ===== src/Fixdep.antt =====
-- scripts/basic/fixdep.c: from the dependency file of a compilation to rules on CONFIG_ options.
pub mod Table
pub mod Config
pub mod Dep
mod Tests
