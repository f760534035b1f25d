-- ===== src/Agent.antt =====
-- The agent: agent/models.py, agent/policy.py and the components of the runtime.
pub mod Models
pub mod Policy
pub mod StateMachine
pub mod SseParser
pub mod Memory
pub mod Verifier
pub mod ContextBuilder
pub mod PromptQueue
pub mod Conversation
pub mod Dispatcher
pub mod History
pub mod ToolCallAccumulator
pub mod Runtime
