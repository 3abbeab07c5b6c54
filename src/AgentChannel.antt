-- ===== src/AgentChannel.antt =====
-- The local control endpoint: PlaygroundEngine/src/AgentChannel/AgentChannel.cpp, as development
-- builds compile it.
pub mod Tokens
pub mod Words
pub mod Commands
pub mod Vocabulary
pub mod Channel
pub mod Exchange
pub mod Connection
pub mod Startup
pub mod Requests
pub mod Progress
pub mod Press
mod Examples
