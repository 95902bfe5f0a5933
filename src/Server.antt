-- ===== src/Server.antt =====
-- replicant-server/src: the tables, the registry of connections, and the message handler.
pub mod State
pub mod Queries
pub mod Database
pub mod Changes
pub mod Locks
pub mod Broadcast
pub mod Keeps
pub mod Handler
pub mod Auth
pub mod Connection
pub mod Forged
pub mod Verify
pub mod Accepts
pub mod Registry
pub mod Race
pub mod Session
pub mod Examples
pub mod ConnectionExamples
mod TaskExamples
