-- ===== src/Tests.antt =====
-- Tests and examples: the theorems at concrete inputs.
mod Plans
mod Turns
mod Messages
mod Acyclic
mod Gate
mod Recent
mod Fragments
mod Sessions
mod Streams
mod Memories
mod Compactions
mod Changes
mod Contexts
mod Persistence
