-- ===== src/App.antt =====
-- crates/document-app: the use cases of the document pipeline and the ports that they call.
pub mod Errors
pub mod Uploads
pub mod Keys
pub mod Ports
pub mod Transition
pub mod Append
pub mod Worker
pub mod Memory
pub mod MemoryUploads
pub mod Service
pub mod Projection
pub mod Principal
pub mod Cursor
