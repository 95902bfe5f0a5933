-- ===== src/Client.antt =====
-- replicant-client: the events, the local database and the sync engine of a client.
pub mod Events
pub mod State
pub mod Database
pub mod Queue
pub mod Uploads
pub mod Messages
pub mod Tracking
pub mod Sync
pub mod Kept
pub mod Deferred
pub mod Rows
pub mod Receive
pub mod Edits
pub mod Resend
pub mod Exchange
pub mod Offline
pub mod Pending
pub mod Atomic
pub mod Protection
pub mod Examples
pub mod EventExamples
pub mod EditExamples
pub mod RoundExamples
pub mod SearchExamples
pub mod Config
pub mod Search
pub mod Socket
pub mod Reconnect
pub mod Accepted
pub mod Rounds
