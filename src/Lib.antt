-- ===== src/Lib.antt =====
-- The verification library of replicant, a store of JSON documents that clients change offline and a
-- server keeps and distributes.
--
-- The parts. A client's changes reach the server as patches, lists of operations at paths. The core
-- crate transforms two concurrent patches against each other (replicant-core/src/ot and patches.rs)
-- and settles two versions of a document (conflicts.rs). The server takes one message at a time from
-- each connection (replicant-server/src/sync_handler.rs), runs the queries of database.rs, each
-- operation in a transaction, answers on the connection's channel, and broadcasts to the user's
-- other connections by the registry of replicant-server/src/lib.rs. A client (replicant-client/src)
-- stores its own changes as pending and queues their patches, uploads them over its connection, takes
-- the server's documents and confirmations, and reports events to callbacks.
--
-- The files. A definition has the name of the function that it models.
--   Prelude (Tests, Lists, Int): names of the libraries, texts as lists of code points, integers.
--   Json: the values of `serde_json`, the operations of `json_patch`, and the record `JsonLibrary` of
--     the functions of those crates that the code calls.
--   Errors, Models, Protocol: errors.rs, models.rs and protocol.rs of replicant-core/src.
--   Ot.Types, Ot.Segment, Ot.Path, Ot.Relation: ot/types.rs and ot/path_utils.rs; Ot.Segment reads and
--     prints one segment, Ot.Path works on one path, Ot.Relation on two.
--   Ot.Transform: ot/transform.rs. Its modules Edits and Convergence treat edits of an array by their
--     indices, apart from paths; Arrays connects the two; Cases and Nested treat the other pairs.
--   Patches, Conflicts: patches.rs and conflicts.rs.
--   Server.State: the tables, the registry and the channels as one record, and computations on it
--     that return a result. Server.Queries, Server.Database, Server.Changes: queries.rs and
--     database.rs. Server.Broadcast, Server.Handler: sync_handler.rs, with a definition for each
--     branch of `handle_message`. Server.Keeps: computations that keep a property of the tables.
--     Server.Auth: auth.rs, and Server.Verify about it. Server.Connection: websocket.rs, and
--     Server.Forged, Server.Registry and Server.Session about it. Server.Accepts: what the check
--     of a signature accepts, apart from its code. Three modules treat what crosses each other:
--     Server.Locks (Statements, Isolated) the statements of transactions, with the row locks;
--     Server.Handler.Stale two handlers of sync_handler.rs; Server.Race (Lost) the tasks of
--     websocket.rs between two operations on the registry's maps.
--   Client.Events: events.rs. Register, Emit and Process are its functions, Received, Delivery and
--     Emitted follow the events to a callback, Actions and Threads are the calls of several threads.
--   Client.State: a client as one record, and steps on it that may fail. Client.Database,
--     Client.Queue: database.rs and queries.rs. Client.Offline: offline_queue.rs, as far as it is used.
--   Client.Messages, Client.Tracking, Client.Uploads, Client.Sync: client.rs. Client.Rows, Kept,
--     Deferred, Receive, Protection, Edits, Resend, Pending and Atomic are about these, and
--     Client.Exchange puts a client's upload and the server's handler together. Client.Config: the
--     configuration that database.rs stores. Client.Search (Index, Entries, Changes, InStep,
--     Configured): its full-text index, beside the client's other tables. Client.Socket:
--     websocket.rs, and Client.Accepted about its first message and the server. Client.Reconnect:
--     the watch over the connection in client.rs, and Client.Rounds (Back, Resync) about it.
--   Ffi: the functions of ffi.rs that change documents; Ffi.Documents and Ffi.Reads read them,
--     Ffi.Events registers callbacks. Ffi.Arguments, Ffi.Engine and Ffi.Offline are about these.
--   Sample: a small stand-in for the crates, for the modules named Examples, which hold the tests,
--     with Server.ConnectionExamples, Server.TaskExamples, Client.EventExamples, Client.EditExamples,
--     Client.RoundExamples and Client.SearchExamples.
--
-- Choices. `usize`, `isize` and `i64` are of 64 bits, and their arithmetic wraps, as in a release
-- build. A character is its code point, a `Uuid` and a time are numbers. A number of JSON is known by
-- a name only. The digits of a number are printed with the number itself plus one for fuel, which is
-- more than it has digits. The other crates are parameters: a theorem that relies on one of them names
-- the law as a hypothesis (`PatchesDiff`, `ComparesOperations`, `ComparesValues`, `MapLaws`).
-- The server runs one handler at a time from one query to the next. Each query may fail, as the list
-- `faults` of the state says, and a failed transaction gives the tables back; a sequence number that it
-- took stays taken. A channel is open or closed, and its capacity is not modelled. `ORDER BY` keeps
-- the table's order for equal keys, and of two patches queued in one second the newest is the one
-- that was inserted last. A client's function runs from one query to the next as well; its clock is
-- read once, and a wait for confirmations is the end of one step and the start of another. Its theorems
-- say "no query failing" by `reliable`, the state with no fault to come. An iterator over a map or a
-- set is a list.
-- The index of the search is the last write of the functions that store a document; Client.Search has
-- them with it, the other modules without, since its failures are logged only. Its queries are counted
-- among the `faults` in Client.Search alone.
-- How the attempts to reach the server fare is a list in the state, `network`, and the interval of the
-- pings is an argument. A call of connect makes four attempts, and one round of the watch one call.
-- Server.Locks and Server.Race have one statement, or one operation on a map, as a step, in any order;
-- the other modules of the server let one transaction and one frame be done before the next begins.
--
-- Not modelled: the making and storing of API keys, the server's start, monitoring and HTTP
-- interface, the table of active connections and the database's statistics; of the client the
-- making and freeing of engines, the waits and timeouts, the three functions of the C interface that
-- configure, rebuild and use the search, and the processing of OfflineQueue; tracing.
pub mod Prelude
pub mod Errors
pub mod Ffi
pub mod Json
pub mod Ot
pub mod Patches
pub mod Models
pub mod Conflicts
pub mod Protocol
pub mod Server
pub mod Client
pub mod Sample
