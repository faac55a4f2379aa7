-- ===== src/Permission.antt =====
-- permission/perm_manager.h and permission/perm_manager.c: the permission manager.
pub mod Types
pub mod Record
pub mod Store
pub mod Access
pub mod Query
pub mod Update
pub mod Check
pub mod Laws
pub mod Memory
mod Tests
unfoldable pub use Types.*
