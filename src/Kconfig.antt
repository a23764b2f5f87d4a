-- ===== src/Kconfig.antt =====
-- scripts/kconfig: tristate logic, dependency expressions and the symbols that they are about.
pub mod Tristate
pub mod Symbol
pub mod Strto
pub mod StringValid
pub mod Lookup
pub mod Escape
pub mod Expr
pub mod Store
pub mod ConfValue
pub mod Default
pub mod Monad
pub mod Calc
pub mod Assign
pub mod ConfRead
pub mod ConfOpen
pub mod ConfCheck
pub mod ConfHeader
pub mod Samples
mod Tests
