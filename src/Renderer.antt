-- ===== src/Renderer.antt =====
-- The renderer of PlaygroundEngine/src/Renderer, over a device that answers its calls.
pub mod Device
pub mod Result
pub mod Choices
pub mod Resources
pub mod Transfers
pub mod SwapChain
pub mod State
pub mod Creation
pub mod Step
pub mod Capture
pub mod Drawing
pub mod Frames
pub mod Replay
pub mod Levels
pub mod Views
pub mod Quiet
pub mod Ensures
pub mod Texture
pub mod Lengths
pub mod Invariant
pub mod Fences
pub mod Runs
pub mod Recording
pub mod Holds
pub mod Recreation
pub mod Waits
pub mod Liveness
pub mod Loading
pub mod Session
pub mod Meshes
pub mod Handles
pub mod Pixels
pub mod Success
pub mod Examples
