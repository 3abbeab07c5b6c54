-- ===== src/WindowServer.antt =====
-- The window server: PlaygroundEngine/src/WindowServer.
pub mod GlfwCases
pub mod GlfwInput
pub mod GlfwKeys
pub mod Backend
pub mod Delivery
mod Examples
