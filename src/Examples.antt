-- ===== src/Examples.antt =====
-- Concrete runs of the development's theorems, over a small platform and sample data.
mod Demo
mod Documents
mod Limits
mod World
mod Finishing
mod Stores
mod Reading
mod Chatting
mod Resuming
mod Storing
mod Working
mod Serving
mod Projecting
mod Callers
