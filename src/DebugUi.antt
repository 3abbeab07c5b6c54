-- ===== src/DebugUi.antt =====
-- The debug overlay's input: PlaygroundEngine/src/DebugUI.
pub mod KeyCases
pub mod Submit
pub mod Keys
mod Examples
