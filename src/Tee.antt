-- ===== src/Tee.antt =====
-- The TEE Internal Core API that the trusted applications under ta/ call: the types of its calls,
-- the interface as a parameter with its documented laws, and a device in memory that meets them.
pub mod Types
pub mod Api
pub mod Memory
unfoldable pub use Types.*
pub use Api.*
