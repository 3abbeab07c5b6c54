-- ===== src/Reflection.antt =====
-- The reflection package: PlaygroundEngine/src/Reflection.
pub mod Enumeration
pub mod Constructors
pub mod Access
mod Examples
