-- ===== src/Domain.antt =====
-- domain/: the enumerations and the transition guards.
pub mod Enums
pub mod Equality
pub mod Transitions
