-- ===== src/Caps.antt =====
-- src/kernel/subsystems/kcaps.c and include/sharkix/caps*.inc: capabilities and capability sets.
pub mod CapType
pub mod Rights
pub mod State
pub mod Global
pub mod Names
pub mod Sets
pub mod Resolve
pub mod Valid
pub mod Moves
pub mod Calls
pub mod Lookup
pub mod Grants
pub mod Naming
pub mod Membership
pub mod Destruction
pub mod Tests
