-- ===== src/Controllers.antt =====
-- controllers: the reconciler of AuthConfigs.
pub mod Expressions
pub mod Conditions
pub mod Rules
pub mod Linking
pub mod Division
pub mod Hosts
pub mod Reindexing
pub mod Strings
pub mod Reports
pub mod Reconciler
pub mod Behind
pub mod Safety
pub mod Status
pub mod Bootstrap
mod Tests
