-- ===== src/InputSystem.antt =====
-- The input system: PlaygroundEngine/src/Ecs/InputSystem. The components live on a heap by address.
pub mod Component
pub mod System
pub mod Latest
pub mod Frames
mod Examples
