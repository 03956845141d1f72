-- ===== src/Chat.antt =====
-- The chat timeline: apps/web/src/core/chat and the wire types that it uses.
pub mod Types
pub mod Frames
pub mod Stream
pub mod Reading
pub mod Session
mod Examples
