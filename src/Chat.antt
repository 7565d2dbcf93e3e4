-- ===== src/Chat.antt =====
-- The chat side: the contracts, the bus between the services with its locks and its events
-- (crates/nats), what a reconnecting client is sent (services/realtime-service), the stored
-- conversations (crates/storage), and the worker of a turn (services/chat-worker).
pub mod Contracts
pub mod Locks
pub mod Events
pub mod Replay
pub mod Repository
pub mod Worker
