-- ===== src/Lib.antt =====
-- Delphi: uploads that become versions of documents, and conversations with an assistant.
--
-- A client opens an upload at the API, puts its parts into an object store, and completes it; a
-- worker assembles the object, checks and scans it, and appends an event to the log of the document.
-- The state of a document is the fold of its log. The upload has a record with a status, which moves
-- by compare-and-swap and ends at a terminal status.
--
-- In a conversation one turn is in flight at a time: a lock carries it, a worker claims it, publishes
-- the events of the answer on a bus that numbers them, and commits the two messages of the turn. A
-- client that comes back is sent the events that it missed. The development has a module for each of
-- these:
--
--   Platform       what the crates take from third-party code (time, JSON, SHA-256, hex), a record
--                  of types and functions without laws that everything is generic over
--   Domain.Events, Domain.Fold, Domain.Geometry, Domain.Validation
--                  crates/document-domain/src: events.rs, fold.rs, geometry.rs, validation.rs. `apply`
--                  and `merge_patch` are the functions of fold.rs with the arms of their matches as
--                  functions by clauses; `fold_from` is `fold_history` of the worker
--   App.Errors, App.Uploads, App.Keys, App.Ports
--                  crates/document-app/src: errors.rs with the texts of the errors; upload_state.rs
--                  and command.rs; keys.rs and digest.rs; ports.rs, each trait a record of actions
--   App.Append, App.Transition
--                  append.rs and transition.rs: the two loops that retry a lost swap
--   App.Worker     worker.rs: `UploadFinisher` from `finish` down, each match on an answer of a port
--                  a function by clauses (Parts and Steps hold the pieces)
--   App.Memory, App.MemoryUploads
--                  the event store and the store of upload records of testing.rs
--   App.Service    service.rs: `DocumentService`, the use cases behind the HTTP API; Requests and Answers
--                  have the data and the parts that call no port
--   App.Projection projection.rs: what the projection makes of one payload; `serde_json` is a parameter
--   App.Principal  principal.rs: the check of a caller's ids
--   App.Cursor     cursor.rs: the text of a listing cursor; Base.Decimal has `Display` and `parse` of
--                  numbers
--   Adapters.Verification
--                  crates/document-adapters/src/verification.rs: the scanner, whose loop is a
--                  recursion over what the reads answer, and the content validator
--   Chat.Contracts crates/contracts/src/lib.rs: conversations, events, server messages
--   Chat.Locks, Chat.Events
--                  crates/nats/src/lib.rs: the locks, and the events with the index of the turns, of
--                  the in-memory bus. Locks.Calls has the calls on locks as values
--   Chat.Replay    services/realtime-service/src/main.rs: `build_replay_plan` and what it calls; Sending
--                  has the loop that sends a plan
--   Chat.Worker    services/chat-worker/src/main.rs: `run_turn` and what it calls, over a record of the
--                  calls it makes; Stream has the loop over the model's stream, whose `select!` is a
--                  list of signals, Steps the rest, and Memory makes the calls those of the
--                  in-memory bus and repository; Titles has the task that makes a title
--   Chat.Repository
--                  crates/storage/src/lib.rs: the in-memory repository of conversations; Commit has
--                  the commit of a turn, Calls the calls that change rows as values
--   Examples       sample data, and the theorems applied to it
--
-- Calls of ports are actions on a world `W`, functions from a world to an answer and a world. A world
-- holds whatever the adapters and the other processes do between two calls of the modelled code, so
-- that a theorem about any ports holds under every failure and every interleaving. What a theorem
-- needs of the ports is among its hypotheses: that certain calls keep a fact of the world (`Frame`),
-- or that a store does compare-and-swap (`IsCas`).
--
-- Numbers are natural numbers. The version that an update is given is computed modulo 2^64, as a
-- release build does; sizes of uploads stay far below 2^64 by the checks of geometry.rs, and the two
-- saturating operations are written as minima with the largest value. Texts are lists of code points,
-- and their equality is a Boolean test. There is no fuel but the source's own: `set_status` and
-- `append_update` make three rounds, and the recursion counts them down.
--
-- The maps of the in-memory stores are functions from keys or lists of their values. A queue to a
-- client has room for a number of messages. Where an operation reads the clock twice, it is given both
-- readings. An operation of the in-memory bus or repository is one step: for locks and conversations a
-- mutex makes it so; publishing an event takes three mutexes in turn, and is modelled for publishers
-- that do not overlap.
--
-- Not modelled: log lines; serde and the wire format; the adapters that call clients of Postgres,
-- NATS, S3 and ClamAV, and with them the bus over NATS and the repository over Postgres; the services'
-- routes, sockets and message loops, and the task by which the chat worker keeps a lock alive; the
-- crates for authentication, configuration and the language model; of crates/document-app the rest of
-- testing.rs.
pub mod Base
pub mod Platform
pub mod Domain
pub mod Adapters
pub mod App
pub mod Chat
pub mod Examples
